-- ===== src/Runtime/Node/Laws.antt =====
-- The numbering of the PEs of a node in `shmem_runtime_util_populate_node` of src/runtime_util.c.
use sandia_shmem.Base.{
  ℕ, zero, suc, ◌+◌, ◌<◌, ◌≤◌, ◌≡◌, refl, ap, ◌∙◌, inl, inr, true, false, Bool-cases, List, ◌∷◌,
  length, get_elem?, some, arith, if◌then◌else◌, dec_lt,
}
use sandia_shmem.Base.Int.{ℤ, pos, negsuc}
use sandia_shmem.Runtime.Node.{Kvs, Node, same_host, place, populate_from, populate_node}

-- Every PE `i` of the job has put the name `names i`.
pub record Answers (kvs : Kvs) (names : ℕ → List ℕ) : Type 0 where
  pub len : (i : ℕ) → kvs.hostname_len i ≡ inr (length (names i))
  pub name : (i : ℕ) → kvs.hostname i (length (names i)) ≡ inr (names i)

-- The number of PEs below `i` whose name passes the comparison.
abbrev pub peers_below : List ℕ → (ℕ → List ℕ) → ℕ → ℕ
peers_below mine names zero = 0
peers_below mine names (suc i) =
    if same_host mine (names i) then suc (peers_below mine names i) else peers_below mine names i

-- What is stored for PE `i`.
abbrev pub location : List ℕ → (ℕ → List ℕ) → ℕ → ℤ
location mine names i =
    if same_host mine (names i) then pos (peers_below mine names i) else negsuc 0

-- The locations of `left` PEs from `i` on.
abbrev pub Numbered : List ℕ → (ℕ → List ℕ) → ℕ → ℕ → Node → Type 0
Numbered mine names left i node =
    (length node.locations ≡ left)
    × (node.n_node_pes ≡ peers_below mine names (i + left))
    × ((k : ℕ) → k < left → get_elem? node.locations k ≡ some (location mine names (i + k)))

next :
    (mine : List ℕ) (names : ℕ → List ℕ) (i : ℕ)
    → peers_below mine names (i + 1) ≡ (
        if same_host mine (names i)
        then suc (peers_below mine names i)
        else peers_below mine names i)
next mine names i = let e : i + 1 ≡ suc i = omega arith in ap (peers_below mine names) e

peers_below-le : (mine : List ℕ) (names : ℕ → List ℕ) (i : ℕ) → peers_below mine names i ≤ i
peers_below-le mine names zero = omega arith
peers_below-le mine names (suc i) = ground (arith, peers_below-le mine names i)

peers_below-pos :
    (mine : List ℕ) (names : ℕ → List ℕ) (me n : ℕ)
    → same_host mine (names me) ≡ true
    → me < n
    → 0 < peers_below mine names n
peers_below-pos mine names me zero e lt = absurd (omega arith)
peers_below-pos mine names me (suc n) e lt = elim (dec_lt me n) [
  | yes below ↦ ground (arith, peers_below-pos mine names me n e below)
  | no last ↦ let same : n ≡ me = omega arith in rw same (rw e (omega arith))
]

abbrev place_first : ℤ → Node → Node
place_first l rest = record rest { locations = l ∷ rest.locations }

-- One more PE in front.
Numbered-next :
    (mine : List ℕ) (names : ℕ → List ℕ) (left i : ℕ) (l : ℤ) (rest : Node)
    → l ≡ location mine names i
    → Numbered mine names left (i + 1) rest
    → Numbered mine names (suc left) i (place_first l rest)
Numbered-next mine names left i l rest e (len, count, locs) =
    (ap suc len, count ∙ ap (peers_below mine names) (omega arith), at)
  where
    at :
        (k : ℕ)
        → k < suc left
        → get_elem? (l ∷ rest.locations) k ≡ some (location mine names (i + k))
    at zero lt = ap some (e ∙ ap (location mine names) (omega arith))
    at (suc k) lt = locs k (omega arith) ∙ ap (λ x. some (location mine names x)) (omega arith)

module _ (mine : List ℕ) {kvs : Kvs} {names : ℕ → List ℕ} (answers : Answers kvs names) where
  populate_from-step :
      (left i n : ℕ)
      → populate_from mine kvs (suc left) i n ≡ elim (same_host mine (names i)) [
        | true ↦ place (pos n) (populate_from mine kvs left (i + 1) (n + 1))
        | false ↦ place (negsuc 0) (populate_from mine kvs left (i + 1) n)
      ]
  unfolding populate_from
  populate_from-step left i n =
      rw (answers.len i, populate_from) (rw (answers.name i, populate_from) refl)

  populate_from-Numbered :
      (left i n : ℕ)
      → n ≡ peers_below mine names i
      → (node : Node) × (populate_from mine kvs left i n ≡ inr node)
        × Numbered mine names left i node
  unfolding populate_from
  populate_from-Numbered zero i n e =
      (_, refl, (refl, e ∙ ap (peers_below mine names) (omega arith), λ k lt. absurd (omega arith)))
  populate_from-Numbered (suc left) i n e = elim (Bool-cases (same_host mine (names i))) [
    | inl yes_host ↦
        let (rest, runs, numbered) =
          populate_from-Numbered left (i + 1) (n + 1)
            (rw (next mine names i) (rw yes_host (omega (arith, e)))) in
        (
          place_first (pos n) rest,
          rw (populate_from-step left i n) (rw yes_host (ap (place (pos n)) runs)),
          Numbered-next mine names left i (pos n) rest (rw yes_host (ap pos e)) numbered,
        )
    | inr no_host ↦
        let (rest, runs, numbered) =
          populate_from-Numbered left (i + 1) n (rw (next mine names i) (rw no_host e)) in
        (
          place_first (negsuc 0) rest,
          rw (populate_from-step left i n) (rw no_host (ap (place (negsuc 0)) runs)),
          Numbered-next mine names left i (negsuc 0) rest (rw no_host refl) numbered,
        )
  ]

-- When the store answers for every PE, and the caller's own name passes the comparison with what one of
-- the PEs has put, the call succeeds: each PE gets -1 if its name does not pass the comparison and
-- otherwise the number of PEs before it that do, and the size of the node is the number of all
-- that do.
pub populate_node_lem :
    (mine : List ℕ) {kvs : Kvs} {names : ℕ → List ℕ} (size me : ℕ)
    → Answers kvs names
    → me < size
    → same_host mine (names me) ≡ true
    → (node : Node) × (populate_node (inr mine) kvs size ≡ inr node)
      × Numbered mine names size 0 node
unfolding populate_node
populate_node_lem mine {names = names} size me answers lt own =
    let (node, runs, numbered) = populate_from-Numbered mine answers size 0 0 refl in
    let count : node.n_node_pes ≡ peers_below mine names size =
      numbered.1 ∙ ap (peers_below mine names) (omega arith) in
    (
      node,
      rw runs (
          ground (
            arith,
            count,
            peers_below-pos mine names me size own lt,
            peers_below-le mine names size,
          )),
      numbered,
    )
