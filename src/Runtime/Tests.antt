-- ===== src/Runtime/Tests.antt =====
-- Runs of src/runtime_util.c.
use sandia_shmem.Base.{
  ℕ, ◌+◌, ◌*◌, ◌<◌, ◌≡◌, ◌≢◌, ◌⊎◌, inr, refl, true, List, [], ◌∷◌, length, none, some, arith, Elem,
  ◌%◌,
}
use sandia_shmem.Base.Int.{pos, negsuc}
use sandia_shmem.Runtime.Hex.{encode, decode, encode_from, low_char, high_char}
use sandia_shmem.Runtime.Hex.Laws.{IsHexDigit, decode-encode}
use sandia_shmem.Runtime.Node.{Kvs, Node, same_host, populate_node}
use sandia_shmem.Runtime.Node.Laws.{Answers, Numbered, populate_node_lem}

-- The bytes 1 and 0xab as "10ba".
encode_runs : encode (1 ∷ 171 ∷ []) 5 ≡ some (49 ∷ 48 ∷ 98 ∷ 97 ∷ [])
unfolding encode encode_from low_char high_char
encode_runs = refl

decode-encode_example :
    ((5 < 2 * 2 + 1) × (encode (1 ∷ 171 ∷ []) 5 ≡ none))
    ⊎ ((s : List ℕ) × (encode (1 ∷ 171 ∷ []) 5 ≡ some s)
        × (length s ≡ 2 * 2)
        × ((c : ℕ) → Elem c s → IsHexDigit c)
        × (decode s 2 ≡ some (1 ∷ 171 ∷ []))
        × ((n : ℕ) → n ≢ 2 → decode s n ≡ none))
decode-encode_example = decode-encode (1 ∷ 171 ∷ []) 5 (omega arith)

-- The even PEs are on host "a", the odd ones on host "b".
abbrev host : ℕ → List ℕ
host i = (97 + i % 2) ∷ []

abbrev kvs : Kvs
kvs = record { hostname_len = λ i. inr 1; hostname = λ i n. inr (host i) }

kvs-Answers : Answers kvs host
kvs-Answers = record { len = λ i. refl; name = λ i. refl }

populate_runs :
    populate_node (inr (98 ∷ [])) kvs 4
    ≡ inr (record { locations = negsuc 0 ∷ pos 0 ∷ negsuc 0 ∷ pos 1 ∷ []; n_node_pes = 2 })
unfolding populate_node same_host
populate_runs = refl

own_host : same_host (98 ∷ []) (host 3) ≡ true
unfolding same_host
own_host = refl

populate_node_lem_example :
    (node : Node) × (populate_node (inr (98 ∷ [])) kvs 4 ≡ inr node)
    × Numbered (98 ∷ []) host 4 0 node
populate_node_lem_example = populate_node_lem (98 ∷ []) 4 3 kvs-Answers (omega arith) own_host

-- On host "a1", a PE of host "a" passes the comparison.
prefix_runs : (same_host (97 ∷ 49 ∷ []) (97 ∷ []) ≡ true)
unfolding same_host
prefix_runs = refl
