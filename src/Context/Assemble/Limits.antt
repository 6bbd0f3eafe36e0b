-- ===== src/Context/Assemble/Limits.antt =====
-- `AssembleContext` of pkg/context/context.go keeps to its limits, and to the headers asked for.
use skylark.Base.{
  ◌/◌, ℕ, ◌+◌, ◌-◌, ◌≤◌, ◌≡◌, refl, ◌∙◌, Bool, true, List, [], ◌∷◌, some, all, length, arith,
  Option-cases, ℕ_eq, List_eq, ◌&&◌, inl, inr,
}
use skylark.Base.Dict.{Dict, insert}
use skylark.Text.{Text}
use skylark.Text.Lines.{split_lines}
use skylark.Context.Section.{Reference, parse_references}
use skylark.Context.Priority.{sort_references_by_priority, all-sort_references_by_priority}
use skylark.Context.Truncate.{length-truncate_content}
use skylark.Context.Assemble.{
  estimate_token_count, Context, requested, section_content, fit_section, add_content, add_sections,
  matches, empty_context, assemble_context,
}

-- The bytes of all the sections that a context holds.
abbrev contents_size : Dict Text Text → ℕ
contents_size [] = 0
contents_size ((k, v) ∷ m) = length v + contents_size m

contents_size-insert :
    (k v : Text) (m : Dict Text Text) → contents_size (insert k v m) ≤ contents_size m + length v
unfolding insert
contents_size-insert k v [] = omega arith
contents_size-insert k v ((j, w) ∷ m) = ground (arith, contents_size-insert k v m)

-- The tokens of all these sections.
abbrev contents_tokens : Dict Text Text → ℕ
contents_tokens [] = 0
contents_tokens ((k, v) ∷ m) = length v / 4 + contents_tokens m

contents_tokens-insert :
    (k v : Text) (m : Dict Text Text)
    → contents_tokens (insert k v m) ≤ contents_tokens m + length v / 4
unfolding insert
contents_tokens-insert k v [] = omega arith
contents_tokens-insert k v ((j, w) ∷ m) = ground (arith, contents_tokens-insert k v m)

-- Each header of a dictionary passes a test.
abbrev all_headers : (Text → Bool) → Dict Text Text → Bool
all_headers p [] = true
all_headers p ((k, v) ∷ m) = p k && all_headers p m

all_headers-insert :
    (p : Text → Bool) (k v : Text) (m : Dict Text Text)
    → p k ≡ true
    → all_headers p m ≡ true
    → all_headers p (insert k v m) ≡ true
unfolding insert
all_headers-insert p k v [] h a = ground arith
all_headers-insert p k v ((j, w) ∷ m) h a = ground (arith, all_headers-insert p k v m h)

pub record IsWithin (p : Text → Bool) (max_size max_tokens : ℕ) (ctx : Context) : Type 0 where
  pub size : ctx.total_size ≤ max_size
  pub tokens : ctx.token_count ≤ max_tokens
  pub contents : contents_size ctx.references ≤ ctx.total_size
  pub tokens_of : contents_tokens ctx.references ≤ ctx.token_count
  pub headers : all_headers p ctx.references ≡ true

length-fit_section :
    (n : ℕ) (ctx : Context) (content fitted : Text)
    → ctx.total_size ≤ n
    → fit_section n ctx content ≡ some fitted
    → ctx.total_size + length fitted ≤ n
unfolding fit_section
length-fit_section n ctx content fitted h e =
    ground (arith, length-truncate_content content (n - ctx.total_size))

add_content-IsWithin :
    (p : Text → Bool) (n m : ℕ) (ctx : Context) (header content : Text)
    → IsWithin p n m ctx
    → ctx.total_size + length content ≤ n
    → p header ≡ true
    → IsWithin p n m (add_content m ctx header content)
unfolding add_content estimate_token_count
add_content-IsWithin p n m ctx header content w h k = ground (
  arith,
  contents_size-insert header content ctx.references,
  contents_tokens-insert header content ctx.references,
  all_headers-insert p header content ctx.references k w.headers,
)

add_sections-IsWithin :
    (p : Text → Bool) (lines : List Text) (n m : ℕ) (ctx : Context) (refs : List Reference)
    → all (λ r. p r.header) refs ≡ true
    → IsWithin p n m ctx
    → IsWithin p n m (add_sections lines n m ctx refs)
unfolding add_sections
add_sections-IsWithin p lines n m ctx [] a w = w
add_sections-IsWithin p lines n m ctx (r ∷ refs) a w =
    elim (Option-cases (fit_section n ctx (section_content lines r))) [
      | inl e ↦ rw (e, add_sections) (add_sections-IsWithin p lines n m ctx refs (ground arith) w)
      | inr (content, e) ↦
          rw (e, add_sections)
            (add_sections-IsWithin p lines n m (add_content m ctx r.header content) refs
              (ground arith)
              (add_content-IsWithin p n m ctx r.header content w
                (length-fit_section n ctx (section_content lines r) content w.size e)
                (ground arith)))
    ]

all-matches :
    (headers : List Text) (refs : List Reference)
    → all (λ r. requested headers r.header) (matches headers refs) ≡ true
unfolding matches
all-matches headers [] = refl
all-matches headers (r ∷ refs) = ground (arith, all-matches headers refs)

-- The sections that a context holds have the headers asked for; its counts of bytes and of tokens keep
-- to the limits, and are at least the bytes, and the tokens at four bytes each, of all the sections
-- that it holds.
pub assemble_context-IsWithin :
    (content : Text) (headers : List Text) (max_size max_tokens : ℕ)
    → IsWithin
        (requested headers)
        max_size
        max_tokens
        (assemble_context content headers max_size max_tokens)
unfolding assemble_context
assemble_context-IsWithin content headers max_size max_tokens =
    add_sections-IsWithin (requested headers) (split_lines content) max_size max_tokens
      empty_context (sort_references_by_priority (matches headers (parse_references content)))
      (all-sort_references_by_priority (λ r. requested headers r.header)
          (matches headers (parse_references content))
        ∙ all-matches headers (parse_references content))
      (record {
        size = omega arith;
        tokens = omega arith;
        contents = omega arith;
        tokens_of = omega arith;
        headers = refl;
      })
