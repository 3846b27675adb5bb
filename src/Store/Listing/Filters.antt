-- ===== src/Store/Listing/Filters.antt =====
-- Who sees what: the filters of the listings survive sorting and paging, and sorting loses nothing.
use chihuo.Base.{
  ℕ, zero, suc, ◌+◌, ◌-◌, ◌||◌, String, ◌≡◌, Bool, true, false, ◌&&◌, inl, inr, List, [], ◌∷◌,
  arith, ltb, leb, length, take, drop, keep, insert_sorted, sort_slice, All, if◌then◌else◌,
  Bool-cases, eq_iff,
}
use chihuo.Base.Text.{is_empty}
use chihuo.Base.Int.{ℤ, pos, pos_part, ltb_ℤ, leb_ℤ}
use chihuo.Domain.{Order}
use chihuo.Domain.OrderStatus
use chihuo.Store.{ListOptions}
use chihuo.Store.Listing.{paginate, passes, list_orders}

module _ {ℓ κ} {A : Type ℓ} (P : A → Type κ) where
  All-take : (n : ℕ) (xs : List A) → All P xs → All P (take n xs)
  All-take zero xs h = tt
  All-take (suc n) [] h = tt
  All-take (suc n) (x ∷ xs) h = (h.0, All-take n xs h.1)

  All-drop : (n : ℕ) (xs : List A) → All P xs → All P (drop n xs)
  All-drop zero xs h = h
  All-drop (suc n) [] h = tt
  All-drop (suc n) (x ∷ xs) h = All-drop n xs h.1

  All-if : (b : Bool) (xs ys : List A) → All P xs → All P ys → All P (if b then xs else ys)
  All-if true xs ys h k = h
  All-if false xs ys h k = k

  All-paginate : (xs : List A) (offset limit : ℤ) → All P xs → All P (paginate xs offset limit)
  unfolding paginate
  All-paginate xs offset limit h =
      let start = if ltb_ℤ offset (pos 0) then 0 else pos_part offset in
      let size = if leb_ℤ limit (pos 0) || ltb_ℤ (pos 100) limit then 50 else pos_part limit in
      let end = if ltb (length xs) (start + size) then length xs else start + size in
      All-if (leb (length xs) start) [] (take (end - start) (drop start xs)) tt
        (All-take (end - start) (drop start xs) (All-drop start xs h))

  All-insert_sorted :
      (less : A → A → Bool) (x : A) (xs : List A) → P x → All P xs → All P (insert_sorted less x xs)
  unfolding insert_sorted
  All-insert_sorted less x [] h t = (h, tt)
  All-insert_sorted less x (y ∷ ys) h t =
      All-if (less y x) _ _ (t.0, All-insert_sorted less x ys h t.1) (h, t)

  All-sort_slice : (less : A → A → Bool) (xs : List A) → All P xs → All P (sort_slice less xs)
  unfolding sort_slice
  All-sort_slice less [] h = tt
  All-sort_slice less (x ∷ xs) h =
      All-insert_sorted less x (sort_slice less xs) h.0 (All-sort_slice less xs h.1)

  -- What passes the test of a filtering loop has what the test shows.
  All-keep :
      (test : A → Bool) (xs : List A) → ((x : A) → test x ≡ true → P x) → All P (keep test xs)
  unfolding keep
  All-keep test [] shows = tt
  All-keep test (x ∷ xs) shows = elim (Bool-cases (test x)) [
    | inl yes_x ↦ rw yes_x (shows x yes_x, All-keep test xs shows)
    | inr no_x ↦ rw no_x (All-keep test xs shows)
  ]

passes_nonempty :
    (wanted value : String) → is_empty wanted ≡ false → passes wanted value ≡ true → value ≡ wanted
unfolding passes
passes_nonempty wanted value h e = ground (arith, h, e, eq_iff value wanted)

-- Where the options name a consumer, as the handler sets them for one, every order listed is that
-- consumer's, whatever the other options, the orders stored and the order visited.
pub list_orders_own :
    (options : ListOptions) (visited : List Order)
    → is_empty options.consumer_id ≡ false
    → All (λ o. o.consumer_id ≡ options.consumer_id) (list_orders options visited)
unfolding list_orders
list_orders_own options visited named =
    All-paginate own (sort_slice newest (keep wanted visited)) options.offset options.limit (
      All-sort_slice own newest (keep wanted visited) (
        All-keep own wanted visited
          (λ o e. passes_nonempty options.consumer_id o.consumer_id named (ground (arith, e)))))
  where
    own : Order → Type 0
    own o = o.consumer_id ≡ options.consumer_id

    newest : Order → Order → Bool
    newest a b = ltb b.created_at a.created_at

    wanted : Order → Bool
    wanted o =
        passes options.consumer_id o.consumer_id
        && passes options.status (OrderStatus.string o.status)
