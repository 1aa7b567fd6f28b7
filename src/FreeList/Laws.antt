-- ===== src/FreeList/Laws.antt =====
-- The items that a free list of src/shmem_free_list.h holds, and those that are out.
use sandia_shmem.Base.{
  ℕ, ◌+◌, ◌<◌, ◌≡◌, ◌≢◌, refl, sym, ap, ◌⊎◌, inl, inr, Bool, true, false, List, [], ◌∷◌, Option,
  none, some, arith, Elem, IsDistinct, ◌==◌, if◌then◌else◌,
}
use sandia_shmem.FreeList.{
  FreeList, store, header_size, more, alloc, free, init, zeroed, take_head, link_items,
}

-- The links from `head` on run through these items and end.
abbrev pub IsChain : (ℕ → Option ℕ) → Option ℕ → List ℕ → Type 0
IsChain next head [] = head ≡ none
IsChain next head (x ∷ xs) = (head ≡ some x) × IsChain next (next x) xs

-- The list holds these items, each once, and none of those that are out.
pub record Holds (fl : FreeList) (xs : List ℕ) (out : ℕ → Bool) : Type 0 where
  pub chain : IsChain fl.next fl.head xs
  pub distinct : IsDistinct xs
  pub apart : (c : ℕ) → Elem c xs → out c ≡ false

abbrev pub mark : (ℕ → Bool) → ℕ → Bool → ℕ → Bool
mark out item b a = if item == a then b else out a

-- A store to another item keeps a chain.
IsChain-store :
    (next : ℕ → Option ℕ) (item : ℕ) (link head : Option ℕ) (xs : List ℕ)
    → ¬ Elem item xs
    → IsChain next head xs
    → IsChain (store next item link) head xs
IsChain-store next item link head [] away chain = chain
IsChain-store next item link head (x ∷ xs) away (at, rest) =
    let other : item ≢ x = λ e. away (inl e) in
    let same : store next item link x ≡ next x = ground arith in
    (at, rw same (IsChain-store next item link (next x) xs (λ m. away (inr m)) rest))

take_first :
    (fl : FreeList) (x : ℕ) (xs : List ℕ) (out : ℕ → Bool) (n : ℕ)
    → Holds fl (x ∷ xs) out
    → Holds (record fl { head = fl.next x; nalloc = n }) xs (mark out x true)
take_first fl x xs out n h = record {
  chain = h.chain.1;
  distinct = h.distinct.1;
  apart =
      λ c m. let other : x ≢ c = λ e. h.distinct.0 (rw e m) in ground (arith, h.apart c (inr m));
}

-- Giving back an item that is out puts it at the head of the list, so that the list holds it and what it held
-- before, each once, and the item is no longer out.
pub free-Holds :
    (fl : FreeList) (item : ℕ) {xs : List ℕ} {out : ℕ → Bool}
    → Holds fl xs out
    → out item ≡ true
    → Holds (free fl item) (item ∷ xs) (mark out item false)
unfolding free
free-Holds fl item {xs} {out} h is_out =
    let away : ¬ Elem item xs = λ m. ground (arith, h.apart item m) in
    let same : store fl.next item fl.head item ≡ fl.head = ground arith in
    record {
      chain = (refl, rw same (IsChain-store fl.next item fl.head fl.head xs away h.chain));
      distinct = (away, h.distinct);
      apart = λ c m. elim m [ inl e ↦ ground arith | inr m' ↦ ground (arith, h.apart c m') ];
    }

-- The two items of a buffer that `malloc` has answered: neither is out.
pub record IsFresh (size buf : ℕ) (out : ℕ → Bool) : Type 0 where
  pub positive : 0 < size
  pub first : out (buf + header_size) ≡ false
  pub second : out (buf + header_size + size) ≡ false

abbrev pub Fresh : ℕ → Option ℕ → (ℕ → Bool) → Type 0
Fresh size none out = Unit
Fresh size (some buf) out = IsFresh size buf out

-- A call that hands out an item.
pub record Hands (fl : FreeList) (result : Option ℕ × FreeList) (out : ℕ → Bool) : Type 0 where
  pub item : ℕ
  pub items : List ℕ
  pub gives : result.0 ≡ some item
  pub was_in : out item ≡ false
  pub holds : Holds result.1 items (mark out item true)

-- A list that has just been given a buffer.
more-Holds :
    (buf : ℕ) (fl : FreeList) (out : ℕ → Bool)
    → fl.head ≡ none
    → IsFresh fl.element_size buf out
    → let first = buf + header_size in
      let second = first + fl.element_size in
      (fl' : FreeList) × (more (some buf) fl ≡ some fl')
      × (fl'.head ≡ some first)
      × Holds fl' (first ∷ second ∷ []) out
unfolding more link_items
more-Holds buf fl out empty fresh =
    let first = buf + header_size in
    let second = first + fl.element_size in
    let other : first ≢ second = λ e. omega (arith, fresh.positive) in
    (
      _,
      refl,
      refl,
      record {
        chain = (refl, (ground (arith, other), ground (arith, empty)));
        distinct =
            ((λ m. elim m [ inl e ↦ other e | inr none_left ↦ absurd none_left ]), ((λ m. m), tt));
        apart = λ c m. elim m [
          | inl e ↦ rw e fresh.first
          | inr (inl e) ↦ rw e fresh.second
          | inr (inr none_left) ↦ absurd none_left
        ];
      },
    )

-- A list that holds items none of which is out, asked for an item when `malloc`, if it is called and answers,
-- answers with memory that is not out: the call gives NULL exactly when the list is empty and
-- `malloc` fails, and then changes nothing; otherwise it gives an item that was not out, and the
-- list then holds items none of which is out, that item included.
pub alloc_lem :
    (answer : Option ℕ) (fl : FreeList) {xs : List ℕ} {out : ℕ → Bool}
    → Holds fl xs out
    → Fresh fl.element_size answer out
    → ((xs ≡ []) × (answer ≡ none) × (alloc answer fl ≡ (none, fl)))
      ⊎ Hands fl (alloc answer fl) out
unfolding alloc
alloc_lem answer fl {xs = x ∷ xs} {out = out} h fresh = inr (
    rw (h.chain.0, alloc)
      (record {
        item = x;
        items = xs;
        gives = refl;
        was_in = h.apart x (inl refl);
        holds = take_first fl x xs out _ h;
      }))
alloc_lem none fl {xs = []} {out = out} h fresh = inl (refl, refl, ground (arith, h.chain))
alloc_lem (some buf) fl {xs = []} {out = out} h fresh =
    let (fl', runs, at, holds) = more-Holds buf fl out h.chain fresh in
    let e : alloc (some buf) fl ≡ take_head fl' (buf + header_size) =
      ground (arith, h.chain, runs, at) in
    inr (
      rw e (record {
        item = buf + header_size;
        items = (buf + header_size + fl.element_size) ∷ [];
        gives = refl;
        was_in = fresh.first;
        holds = take_first fl' _ _ out _ holds;
      }))

size_of : ℕ → Option FreeList → ℕ
size_of n none = n
size_of n (some fl) = fl.element_size

same_size :
    (buf : ℕ) (fl : FreeList) {fl' : FreeList}
    → more (some buf) fl ≡ some fl'
    → fl'.element_size ≡ fl.element_size
unfolding more size_of
same_size buf fl e = ap (size_of 0) (sym e)

-- Making a list of items of positive size fails when one of the two allocations does; otherwise it gives a list of
-- that size that holds two items, each once: the place behind the header of the buffer and the place
-- behind that item.
pub init-Holds :
    (calloc_ok : Bool) (answer : Option ℕ) (size : ℕ)
    → 0 < size
    → (((calloc_ok ≡ false) ⊎ (answer ≡ none)) × (init calloc_ok answer size ≡ none))
      ⊎ ((buf : ℕ) × (answer ≡ some buf)
          × (fl : FreeList) × (init calloc_ok answer size ≡ some fl)
          × (fl.element_size ≡ size)
          × Holds fl ((buf + header_size) ∷ (buf + header_size + size) ∷ []) (λ _. false))
unfolding init more
init-Holds false answer size positive = inl (inl refl, refl)
init-Holds true none size positive = inl (inr refl, refl)
init-Holds true (some buf) size positive =
    let (fl, runs, at, holds) =
      more-Holds buf (zeroed size) (λ _. false) refl
        (record { positive = positive; first = refl; second = refl }) in
    inr (buf, refl, fl, runs, same_size buf (zeroed size) runs, holds)
