-- ===== src/Provider/Registry.antt =====
-- pkg/provider/registry/registry.go. A provider is what a factory of the caller makes.
use skylark.Base.{
  ◌≡◌, refl, ℕ, Option, Result, ℕ_eq, List_eq, true, none, if◌then◌else◌, ◌++◌, false, ◌∷◌, [], err,
  ◌==◌, some, arith, Bool-cases, ==_refl, inl, inr, ap, ◌∙◌, sym,
}
use skylark.Base.Dict.{Dict, lookup, insert, lookup-insert}
use skylark.Text.{Text, is_nil}
use skylark.Text.Split.{lacks}

abbrev pub colon : ℕ
colon = 58

pub data RegistryError : Type 0 where
  unknown_provider : Text → RegistryError
  factory_failed : Text → RegistryError

-- strings.SplitN(s, ":", 2): what stands before the first colon and behind it
unfoldable split_colon : Text → Option (Text × Text)
split_colon [] = none
split_colon (c ∷ s) =
    let rest = split_colon s in
    if c == colon
    then some ([], s)
    else elim rest [ none ↦ none | some (first, second) ↦ some (c ∷ first, second) ]

-- The provider is "" where the specification names none.
unfoldable pub parse_model_spec : Text → Text × Text
unfolding split_colon
parse_model_spec spec = elim (split_colon spec) [ none ↦ ([], spec) | some parts ↦ parts ]

module _ (Provider : Type 0) where
  abbrev pub Factory : Type 0
  Factory = Text → Result RegistryError Provider

  abbrev pub Registry : Type 0
  Registry = Dict Text Factory

  unfoldable pub register : Text → Factory → Registry → Registry
  register name factory r = insert name factory r

  -- what follows the look-up of the factory
  abbrev make : Text → Text → Option Factory → Result RegistryError Provider
  make provider model none = err (unknown_provider provider)
  make provider model (some factory) = factory model

  abbrev create_parsed : Registry → Text → Text × Text → Result RegistryError Provider
  create_parsed r default_provider (named, model) =
      let provider = if is_nil named then default_provider else named in
      make provider model (lookup provider r)

  unfoldable pub create_for_model : Registry → Text → Text → Result RegistryError Provider
  create_for_model r model_spec default_provider =
      create_parsed r default_provider (parse_model_spec model_spec)

split_colon-append :
    (provider model : Text)
    → lacks colon provider ≡ true
    → split_colon (provider ++ (colon ∷ model)) ≡ some (provider, model)
unfolding split_colon
split_colon-append [] model h = refl
split_colon-append (c ∷ provider) model h = ground (arith, split_colon-append provider model)

split_colon-lacks : (spec : Text) → lacks colon spec ≡ true → split_colon spec ≡ none
unfolding split_colon
split_colon-lacks [] h = refl
split_colon-lacks (c ∷ spec) h = ground (arith, split_colon-lacks spec)

create_for_model-unnamed :
    (Provider : Type 0) (r : Registry Provider) (model default_provider : Text)
    → lacks colon model ≡ true
    → create_for_model Provider r model default_provider
      ≡ make Provider default_provider model (lookup default_provider r)
unfolding create_for_model parse_model_spec
create_for_model-unnamed Provider r model default_provider l =
    ap
      (λ o.
        create_parsed Provider r default_provider
          (elim o [ none ↦ ([], model) | some parts ↦ parts ]))
      (split_colon-lacks model l)

module _ (Provider : Type 0) (r : Registry Provider) (name model : Text)
    (factory : Factory Provider) where
  -- A registered provider makes the model that a specification `name:model` asks for, whatever the
  -- default is and whatever else is registered; the model's name may hold colons.
  pub create_for_model-register :
      (default_provider : Text)
      → lacks colon name ≡ true
      → is_nil name ≡ false
      → create_for_model Provider
          (register Provider name factory r)
          (name ++ (colon ∷ model))
          default_provider
        ≡ factory model
  unfolding create_for_model register parse_model_spec
  create_for_model-register default_provider l n =
      ap
        (λ o.
          create_parsed Provider (register Provider name factory r) default_provider
            (elim o [ none ↦ ([], name ++ (colon ∷ model)) | some parts ↦ parts ]))
        (split_colon-append name model l)
      ∙ rw (n, lookup-insert name name factory r, ==_refl name) refl

  -- A specification without a colon goes to the default provider, and to none but that.
  create_for_model-default :
      (default_provider : Text)
      → lacks colon model ≡ true
      → create_for_model Provider (register Provider name factory r) model default_provider ≡ (
          if name == default_provider
          then factory model
          else create_for_model Provider r model default_provider)
  unfolding register
  create_for_model-default default_provider l =
      create_for_model-unnamed Provider (register Provider name factory r) model default_provider l
      ∙ ap (make Provider default_provider model) (lookup-insert name default_provider factory r)
      ∙ elim (Bool-cases (name == default_provider)) [
        | inl e ↦ rw e refl
        | inr e ↦ rw e (sym (create_for_model-unnamed Provider r model default_provider l))
      ]
