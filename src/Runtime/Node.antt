-- ===== src/Runtime/Node.antt =====
-- `shmem_runtime_util_populate_node` of src/runtime_util.c: the numbers of the PEs on the caller's node. What
-- `gethostname` and the key-value store answer are arguments: `inl` is a return value other than 0.
pub mod Laws
use sandia_shmem.Base.{
  ℕ, zero, suc, ◌+◌, ◌⊎◌, inl, inr, Bool, true, false, List, [], ◌∷◌, ltb, ◌==◌, ◌&&◌, ◌||◌,
  if◌then◌else◌,
}
use sandia_shmem.Base.Int.{ℤ, pos, negsuc}

-- The answers of `shmem_runtime_get` for PE `i`: its "hostname_len", and the first bytes of its
-- "hostname".
pub record Kvs : Type 0 where
  pub hostname_len : ℕ → ℤ ⊎ ℕ
  pub hostname : ℕ → ℕ → ℤ ⊎ List ℕ

-- `strncmp(hostname, peer, hlen) == 0` for a `peer` of `hlen` characters, none of them NUL
unfoldable pub same_host : List ℕ → List ℕ → Bool
same_host hostname [] = true
same_host [] (c ∷ peer) = false
same_host (h ∷ hostname) (c ∷ peer) = (h == c) && same_host hostname peer

-- `location_array` and `n_node_pes`
pub record Node : Type 0 where
  pub locations : List ℤ
  pub n_node_pes : ℕ

abbrev pub place : ℤ → ℤ ⊎ Node → ℤ ⊎ Node
place l (inl ret) = inl ret
place l (inr rest) = inr (record rest { locations = l ∷ rest.locations })

-- The loop from PE `i` on, with `left` to go and `n` PEs found.
unfoldable pub populate_from : List ℕ → Kvs → ℕ → ℕ → ℕ → ℤ ⊎ Node
populate_from hostname kvs zero i n = inr (record { locations = []; n_node_pes = n })
populate_from hostname kvs (suc left) i n = elim (kvs.hostname_len i) [
  | inl ret ↦ inl ret
  | inr hlen ↦ elim (kvs.hostname i hlen) [
    | inl ret ↦ inl ret
    | inr peer ↦ elim (same_host hostname peer) [
      | true ↦ place (pos n) (populate_from hostname kvs left (i + 1) (n + 1))
      | false ↦ place (negsuc 0) (populate_from hostname kvs left (i + 1) n)
    ]
  ]
]

-- The check of the size of the node.
abbrev pub sized : ℕ → ℤ ⊎ Node → ℤ ⊎ Node
sized size (inl ret) = inl ret
sized size (inr node) =
    if ltb node.n_node_pes 1 || ltb size node.n_node_pes then inl (pos 1) else inr node

unfoldable pub populate_node : ℤ ⊎ List ℕ → Kvs → ℕ → ℤ ⊎ Node
unfolding populate_from
populate_node (inl ret) kvs size = inl ret
populate_node (inr hostname) kvs size = sized size (populate_from hostname kvs size 0 0)
