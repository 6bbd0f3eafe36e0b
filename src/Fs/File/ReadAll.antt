-- ===== src/Fs/File/ReadAll.antt =====
-- Reading a file of pkg/fs/memory/fs.go to its end.
use skylark.Base.{
  Option, none, some, ℕ, suc, zero, ◌≡◌, refl, ap, ◌∙◌, sym, true, false, [], ◌∷◌, ◌++◌, ok, err,
  Result, take, drop, length, arith, ◌+◌, ◌-◌, ◌≤◌, ◌<◌, leb, Bool-cases, inl, inr,
}
use skylark.Text.{Text}
use skylark.Fs.File.{File, FileError, read, eof}

-- What was read before, and what a loop that has ended has read after it.
abbrev joined : Option (Text × FileError) → Result FileError Text → Option (Text × FileError)
joined rest (err e) = some ([], e)
joined none (ok got) = none
joined (some (text, e)) (ok got) = some (got ++ text, e)

-- Reads with a buffer of a size until an error: what was read, and the error; none if there is no error
-- in so many reads.
unfoldable pub read_loop : ℕ → ℕ → File → Option (Text × FileError)
unfolding read
read_loop zero size f = none
read_loop (suc fuel) size f =
    let (r, g) = read size f in let rest = read_loop fuel size g in joined rest r

drop-all : (n : ℕ) (xs : Text) → length xs ≤ n → drop n xs ≡ []
drop-all zero [] h = refl
drop-all zero (x ∷ xs) h = absurd (omega arith)
drop-all (suc n) [] h = refl
drop-all (suc n) (x ∷ xs) h = drop-all n xs (omega arith)

length-drop : (n : ℕ) (xs : Text) → length (drop n xs) ≡ length xs - n
length-drop zero xs = omega arith
length-drop (suc n) [] = omega arith
length-drop (suc n) (x ∷ xs) = omega (arith, length-drop n xs)

drop-nil : (n : ℕ) → drop {A = ℕ} n [] ≡ []
drop-nil zero = refl
drop-nil (suc n) = refl

zero_add : (n : ℕ) → 0 + n ≡ n
zero_add n = omega arith

suc_add : (m n : ℕ) → suc m + n ≡ suc (m + n)
suc_add m n = omega arith

drop-add : (m n : ℕ) (xs : Text) → drop (m + n) xs ≡ drop n (drop m xs)
drop-add zero n xs = ap (λ k. drop k xs) (zero_add n)
drop-add (suc m) n [] = drop-nil (suc m + n) ∙ sym (drop-nil n)
drop-add (suc m) n (x ∷ xs) = ap (λ k. drop k (x ∷ xs)) (suc_add m n) ∙ drop-add m n xs

take-drop-length : (n : ℕ) (xs : Text) → take n xs ++ drop (length (take n xs)) xs ≡ xs
take-drop-length zero xs = refl
take-drop-length (suc n) [] = refl
take-drop-length (suc n) (x ∷ xs) = ap (◌∷◌ x) (take-drop-length n xs)

take_some : (size : ℕ) (xs : Text) → 1 ≤ size → 1 ≤ length xs → 1 ≤ length (take size xs)
take_some zero xs h k = absurd (omega arith)
take_some (suc n) [] h k = absurd (omega arith)
take_some (suc n) (x ∷ xs) h k = omega arith

read_ended :
    (size : ℕ) (f : File) → leb (length f.data_) f.offset ≡ true → read size f ≡ (err eof, f)
unfolding read
read_ended size f e = rw e refl

abbrev got : ℕ → File → Text
got size f = take size (drop f.offset f.data_)

read_more :
    (size : ℕ) (f : File)
    → leb (length f.data_) f.offset ≡ false
    → read size f ≡ (ok (got size f), record f { offset = f.offset + length (got size f) })
unfolding read
read_more size f e = rw e refl

-- Reading with a buffer that is not empty ends, after one more read than the bytes that are left at the
-- latest, with the error for the end of the file, and has then given all of the file from the offset on.
pub read_loop_all :
    (fuel size : ℕ) (f : File)
    → 1 ≤ size
    → length f.data_ - f.offset < fuel
    → read_loop fuel size f ≡ some (drop f.offset f.data_, eof)
unfolding read_loop
read_loop_all zero size f s h = absurd (omega arith)
read_loop_all (suc fuel) size f s h = elim (Bool-cases (leb (length f.data_) f.offset)) [
  | inl e ↦
      ap (λ (r : Result FileError Text × File). joined (read_loop fuel size r.1) r.0)
        (read_ended size f e)
      ∙ ap (λ text. some (text, eof)) (sym (drop-all f.offset f.data_ (ground arith)))
  | inr e ↦
      ap (λ (r : Result FileError Text × File). joined (read_loop fuel size r.1) r.0)
        (read_more size f e)
      ∙ ap (λ rest. joined rest (ok (got size f)))
          (read_loop_all fuel size (record f { offset = f.offset + length (got size f) }) s
            (fewer e))
      ∙ ap (λ text. some (text, eof))
          (ap (◌++◌ (got size f)) (drop-add f.offset (length (got size f)) f.data_)
            ∙ take-drop-length size (drop f.offset f.data_))
]
  where
    fewer :
        leb (length f.data_) f.offset ≡ false
        → length f.data_ - (f.offset + length (got size f)) < fuel
    fewer e =
        let left = length-drop f.offset f.data_ in
        let some_read = take_some size (drop f.offset f.data_) s (ground (arith, e, left)) in
        ground (arith, e, h, some_read)
