-- ===== src/Store/Listing/Pages.antt =====
-- Pages of a listing: `paginate` cuts the list into consecutive pieces and loses nothing.
use chihuo.Base.{
  ℕ, zero, suc, ◌+◌, ◌-◌, ◌*◌, ◌≤◌, ◌<◌, ◌≡◌, refl, sym, ap, ◌∙◌, Bool-cases, ◌||◌, inl, inr, List,
  [], ◌∷◌, ◌++◌, arith, ltb, leb, if◌then◌else◌, length, take, drop, length-drop,
}
use native.Mathlib.Nat.{zero-add, suc-add}
use chihuo.Base.Int.{pos, ltb_ℤ, leb_ℤ}
use chihuo.Store.Listing.{paginate}

start_of : (start : ℕ) → (if ltb_ℤ (pos start) (pos 0) then 0 else start) ≡ start
start_of start = ground arith

size_of :
    (size : ℕ)
    → 0 < size
    → size ≤ 100
    → (if leb_ℤ (pos size) (pos 0) || ltb_ℤ (pos 100) (pos size) then 50 else size) ≡ size
size_of size h k = ground arith

module _ {ℓ} {A : Type ℓ} where
  take_all : (n : ℕ) (xs : List A) → length xs ≤ n → take n xs ≡ xs
  take_all zero [] h = refl
  take_all zero (x ∷ xs) h = absurd (omega arith)
  take_all (suc n) [] h = refl
  take_all (suc n) (x ∷ xs) h = ap (◌∷◌ x) (take_all n xs (omega arith))

  drop_all : (n : ℕ) (xs : List A) → length xs ≤ n → drop n xs ≡ []
  drop_all zero [] h = refl
  drop_all zero (x ∷ xs) h = absurd (omega arith)
  drop_all (suc n) [] h = refl
  drop_all (suc n) (x ∷ xs) h = drop_all n xs (omega arith)

  take-nil : (n : ℕ) → take {A = A} n [] ≡ []
  take-nil zero = refl
  take-nil (suc n) = refl

  -- The page that starts at an offset, for a size that the code accepts.
  pub paginate-take-drop :
      (items : List A) (start size : ℕ)
      → 0 < size
      → size ≤ 100
      → paginate items (pos start) (pos size) ≡ take size (drop start items)
  unfolding paginate
  paginate-take-drop items start size h k =
      rw (start_of start, size_of size h k)
        (elim (Bool-cases (leb (length items) start)) [
          | inl past ↦ rw (past, drop_all start items (ground (arith, past))) (sym (take-nil size))
          | inr within ↦ rw within (elim (Bool-cases (ltb (length items) (start + size))) [
            | inl last ↦
                let rest = length-drop start items in
                rw last (
                  take_all (length items - start) (drop start items) (omega arith)
                  ∙ sym (take_all size (drop start items) (ground (arith, last, rest))))
            | inr more ↦ rw more (ap (λ n. take n (drop start items)) (omega arith))
          ])
        ])

  take-append-take-drop :
      (n m : ℕ) (xs : List A) → take n xs ++ take m (drop n xs) ≡ take (n + m) xs
  take-append-take-drop zero m xs = rw zero-add
  take-append-take-drop (suc n) m [] = rw suc-add (take-nil m)
  take-append-take-drop (suc n) m (x ∷ xs) = rw suc-add (ap (◌∷◌ x) (take-append-take-drop n m xs))

  -- The first pages of one size, joined.
  unfoldable pub first_pages : ℕ → ℕ → List A → List A
  first_pages zero size items = []
  first_pages (suc n) size items =
      first_pages n size items ++ paginate items (pos (n * size)) (pos size)

  -- Asked for pages of a size from 1 to 100 one after another, `paginate` hands out the items in their
  -- order, each once: the first n pages, joined, are the first n * size items.
  pub first_pages-eq-take :
      (n size : ℕ) (items : List A)
      → 0 < size
      → size ≤ 100
      → first_pages n size items ≡ take (n * size) items
  unfolding first_pages
  first_pages-eq-take zero size items h k = ap (λ m. take m items) {x = 0} (omega arith)
  first_pages-eq-take (suc n) size items h k =
      rw (first_pages-eq-take n size items h k, paginate-take-drop items (n * size) size h k)
        (take-append-take-drop (n * size) size items ∙ ap (λ m. take m items) (omega arith))
