-- ===== src/Stx/Auto.antt =====
-- How many STXs a PE has, by `shmem_transport_init` and `shmem_transport_startup` of src/transport_ofi.c.
use sandia_shmem.Base.{
  ℕ, zero, suc, ◌+◌, ◌*◌, ◌/◌, ◌%◌, ◌<◌, ◌≤◌, ◌≡◌, refl, ap, ◌∙◌, Bool, true, false, ◌&&◌, Option,
  none, some, ltb, ◌==◌, if◌then◌else◌, arith, dec_lt,
}
use sandia_shmem.Base.Int.{ℤ, pos, pos_part, ltb_ℤ}
use native.Mathlib.Nat.{
  mod-eq_of_lt, mul-add-mod_self_right, mod-lt, div-add-mod, zero-mul, mul-zero, add-mul, zero-mul,
}

-- The setting; `single` is a thread level of SINGLE or FUNNELED. `none` is the error of a negative setting.
unfoldable pub stx_max_setting : Bool → ℤ → Option ℕ
stx_max_setting single requested =
    if single && ltb_ℤ (pos 1) requested
    then some 1
    else if ltb_ℤ requested (pos 0)
    then none
    else some (pos_part requested)

abbrev pub extra_of : ℕ → ℕ → ℕ
extra_of remainder place = if ltb 0 remainder && ltb place remainder then 1 else 0

-- The share of a PE of the contexts of its node; `none` is an error. What follows the second error in the source
-- is not reached.
unfoldable pub auto_max : ℤ → ℕ → ℕ → ℕ → Option ℕ
auto_max tx_ctx_cnt num_on_node my_pe num_pes =
    let cnt = pos_part tx_ctx_cnt in
    let remainder = cnt % num_on_node in
    let node_pe = my_pe % num_pes in
    let extra = extra_of remainder (node_pe % num_on_node) in
    let stx_max = cnt / num_on_node + extra in
    if ltb_ℤ (pos 0) tx_ctx_cnt then (if stx_max == 0 then none else some stx_max) else none

unfoldable pub startup_max : Bool → ℕ → ℤ → ℕ → ℕ → ℕ → Option ℕ
unfolding auto_max
startup_max auto stx_max tx_ctx_cnt num_on_node my_pe num_pes =
    if auto && (stx_max == 0)
    then some stx_max
    else if auto
    then auto_max tx_ctx_cnt num_on_node my_pe num_pes
    else some stx_max

-- f 0 + ... + f (n - 1)
unfoldable pub total : (ℕ → ℕ) → ℕ → ℕ
total f zero = 0
total f (suc n) = f n + total f n

abbrev one_more : ℕ → ℕ → ℕ
one_more remainder i = if ltb i remainder then 1 else 0

abbrev share_of : ℕ → ℕ → ℕ → ℕ
share_of cnt n i = cnt / n + one_more (cnt % n) i

total-share_of :
    (cnt n m : ℕ)
    → total (share_of cnt n) m ≡ m * (cnt / n) + (if ltb m (cnt % n) then m else cnt % n)
unfolding total
total-share_of cnt n zero = ground (arith, zero-mul (cnt / n))
total-share_of cnt n (suc m) = ground (arith, total-share_of cnt n m, add-mul 1 m (cnt / n))

extra_lem : (remainder x i : ℕ) → x ≡ i → extra_of remainder x ≡ one_more remainder i
extra_lem remainder x i e = ground (arith, e)

div-pos : (cnt n : ℕ) → 0 < n → n ≤ cnt → 0 < cnt / n
div-pos cnt n positive enough = elim (dec_lt 0 (cnt / n)) [
  | yes l ↦ l
  | no none_left ↦
      let zero_share : n * (cnt / n) ≡ 0 =
        ap (λ x. n * x) (omega (arith, none_left)) ∙ mul-zero n in
      absurd (omega (arith, zero_share, div-add-mod cnt n, mod-lt cnt positive, enough))
]

share_lem :
    (cnt n b i num_pes : ℕ)
    → 0 < n
    → n ≤ cnt
    → i < n
    → b * n + i < num_pes
    → auto_max (pos cnt) n (b * n + i) num_pes ≡ some (share_of cnt n i)
unfolding auto_max
share_lem cnt n b i num_pes positive enough inside bound =
    let node_pe : (b * n + i) % num_pes ≡ b * n + i = mod-eq_of_lt bound in
    let on_node : (b * n + i) % n ≡ i = mul-add-mod_self_right b n i ∙ mod-eq_of_lt inside in
    let one : 0 < cnt / n = div-pos cnt n positive enough in
    let some_there : ltb_ℤ (pos 0) (pos cnt) ≡ true = ground (arith, positive, enough) in
    let first : (b * n + i) % num_pes % n ≡ i = ap (λ x. x % n) node_pe ∙ on_node in
    let extra = extra_lem (cnt % n) ((b * n + i) % num_pes % n) i first in
    let more : (cnt / n + one_more (cnt % n) i == 0) ≡ false = ground (arith, one) in
    rw (auto_max, some_there, extra, more) refl

-- Where the PEs of a node are numbered from a multiple of their number on and have one context each at least, each PE
-- gets a share, and the shares are all contexts of the node.
pub auto_max_lem :
    (cnt n b num_pes : ℕ)
    → 0 < n
    → n ≤ cnt
    → b * n + n ≤ num_pes
    → (share : ℕ → ℕ) × ((i : ℕ)
        → i < n
        → auto_max (pos cnt) n (b * n + i) num_pes ≡ some (share i))
      × (total share n ≡ cnt)
auto_max_lem cnt n b num_pes positive enough bound =
    let left : cnt % n < n = mod-lt cnt positive in
    (
      share_of cnt n,
      (λ i l. share_lem cnt n b i num_pes positive enough l (omega (arith, bound, l))),
      total-share_of cnt n n ∙ ground (arith, left, div-add-mod cnt n),
    )
