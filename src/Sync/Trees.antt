-- ===== src/Sync/Trees.antt =====
-- `shmem_internal_sync_tree` of src/collectives.c is a barrier over the tree that its PEs have computed.
pub mod Full
pub mod Kary
use sandia_shmem.Base.{
  ℕ, suc, ◌+◌, ◌<◌, ◌≡◌, ◌≢◌, refl, ap, sym, ◌∙◌, true, false, List, [], ◌∷◌, map, length, arith,
  ◌==◌, if◌then◌else◌, ℕ_discrete, ==_iff,
}
use sandia_shmem.Comm.{Instr, put, add, wait, eq, ne}
use sandia_shmem.Sync.{TreeNode, sync_tree}
use sandia_shmem.Sync.Shape.{
  Shape, IsTree, code, start, ack, acked_wait, code_drain, code_clear, code_report,
}
use sandia_shmem.Sync.Inv.{parent-ne}

-- What the PE `p` of the tree has computed.
abbrev pub node : Shape → ℕ → TreeNode
node t p = record {
  parent = t.parent p;
  num_children = length (t.children p);
  children = t.children p;
}

nil_of_length : (xs : List ℕ) → length xs ≡ 0 → xs ≡ []
nil_of_length [] e = refl
nil_of_length (x ∷ xs) e = absurd (omega (arith, e))

module _ {t : Shape} (is_tree : IsTree t) (adds : t.put_acks ≡ false)
    (own : t.parent t.root ≡ t.root) where
  acks-map : (l : List ℕ) → map (add t.slot 1) l ≡ map (ack t) l
  acks-map [] = refl
  acks-map (c ∷ l) = rw adds (ap (λ x. add t.slot 1 c ∷ x) (acks-map l))

  pub tree-code :
      (p : ℕ) → t.is_member p ≡ true → sync_tree (node t p) t.slot p ≡ code t p (start t p)
  unfolding sync_tree
  tree-code p member = elim (ℕ_discrete (length (t.children p)) 0) [
    | yes leaf ↦
        let hit : (length (t.children p) == 0) ≡ true = (==_iff _ _).1 leaf in
        rw (hit, member)
          (rw hit (
            ap
              (λ xs.
                add t.slot 1 (t.parent p)
                ∷ wait t.slot ne 0
                ∷ put t.slot 0 p
                ∷ wait t.slot eq 0
                ∷ map (ack t) xs)
              (sym (nil_of_length (t.children p) leaf))))
    | no inner ↦
        let miss : (length (t.children p) == 0) ≡ false = ground arith in
        elim (ℕ_discrete p t.root) [
          | yes at_root ↦
              let top : (p == t.root) ≡ true = (==_iff _ _).1 at_root in
              let self : (t.parent p == p) ≡ true =
                (==_iff _ _).1 (ap t.parent at_root ∙ own ∙ sym at_root) in
              rw (miss, member, self)
                (rw miss (
                  rw top (
                    ap
                      (λ l.
                        wait t.slot eq (length (t.children p))
                        ∷ put t.slot 0 p
                        ∷ wait t.slot eq 0
                        ∷ l)
                      (acks-map (t.children p)))))
          | no below ↦
              let top : (p == t.root) ≡ false = ground arith in
              let self : (t.parent p == p) ≡ false =
                let other = parent-ne is_tree member below in ground arith in
              rw (miss, member, self)
                (rw miss (
                  rw top (
                    ap
                      (λ l.
                        wait t.slot eq (length (t.children p))
                        ∷ add t.slot 1 (t.parent p)
                        ∷ wait t.slot eq (length (t.children p) + 1)
                        ∷ put t.slot 0 p
                        ∷ wait t.slot eq 0
                        ∷ l)
                      (acks-map (t.children p)))))
        ]
  ]
