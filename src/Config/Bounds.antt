-- ===== src/Config/Bounds.antt =====
-- What a validated configuration guarantees.
use Prim.Native.String.{String}
use koorde_dht.Prelude.{
  ℕ, suc, ◌+◌, ◌-◌, ◌/◌, ◌%◌, ◌≤◌, ◌<◌, ◌≡◌, ◌⊎◌, inl, inr, refl, Bool, true, false, ◌||◌, List, [],
  ◌∷◌, ◌++◌, Option, arith, ltb, ◌==◌, bit_and, Bool-cases, zero_or_suc,
}
use koorde_dht.Prelude.Int.{ℤ, pos, negsuc, to_nat}
use koorde_dht.Result.{Error, Result, ok, err, panic, errorf}
use koorde_dht.Identifier.Space.{Space, new_space}
use koorde_dht.Config.{
  Config, DhtConfig, check, is_nonpositive, is_negative, is_greater, to_uint, trailing_zeros,
  dht_errors, node_errors, errors_with, report, validate_config,
}

-- A list without elements has parts without elements.
append-empty : (xs ys : List String) → xs ++ ys ≡ [] → (xs ≡ []) × (ys ≡ [])
append-empty [] ys e = (refl, e)
append-empty (x ∷ xs) ys e = ground arith

check-passed :
    (test : Bool) (msg : String) (rest : List String)
    → check test msg ++ rest ≡ []
    → (test ≡ false) × (rest ≡ [])
unfolding check
check-passed true msg rest e = ground arith
check-passed false msg rest e = (refl, e)

-- The checks of the DHT's numbers have passed.
dht_errors-passed :
    (cfg : DhtConfig) (log : ℕ)
    → dht_errors cfg log ≡ []
    → (0 < to_nat cfg.id_bits)
      × (0 < to_nat cfg.de_bruijn.degree)
      × (0 < to_nat cfg.fault_tolerance.successor_list_size)
      × (is_greater cfg.de_bruijn.degree cfg.fault_tolerance.successor_list_size ≡ false)
unfolding dht_errors is_nonpositive
dht_errors-passed cfg log e =
    let (bits, e1) = check-passed _ _ _ e in
    let (mode, e2) = check-passed _ _ _ e1 in
    let (degree, e3) = check-passed _ _ _ e2 in
    let (fix, e4) = check-passed _ _ _ e3 in
    let (size, e5) = check-passed _ _ _ e4 in
    let (stabilization, e6) = check-passed _ _ _ e5 in
    let (timeout, e7) = check-passed _ _ _ e6 in
    let (order, e8) = check-passed _ _ _ e7 in (ground arith, ground arith, ground arith, order)

is_greater-le : (a b : ℤ) → is_greater a b ≡ false → to_nat a ≤ to_nat b
unfolding is_greater
is_greater-le (pos a) (pos b) e = ground arith
is_greater-le (pos a) (negsuc b) e = ground arith
is_greater-le (negsuc a) (pos b) e = ground arith
is_greater-le (negsuc a) (negsuc b) e = ground arith

trailing_zeros-odd : (n x : ℕ) → x % 2 ≡ 1 → trailing_zeros (suc n) x ≡ 0
unfolding trailing_zeros
trailing_zeros-odd n x odd = ground arith

-- A positive degree that does not make the check divide by zero is at least 2.
trailing_zeros-degree :
    (d : ℤ) (n : ℕ) → trailing_zeros 64 (to_uint d) ≡ suc n → 0 < to_nat d → 2 ≤ to_nat d
unfolding to_uint
trailing_zeros-degree (negsuc x) n e h = absurd (omega arith)
trailing_zeros-degree (pos x) n e h = elim (Bool-cases (x % 2 == 0)) [
  | inl even ↦ ground arith
  | inr odd ↦
      let none_left = trailing_zeros-odd 63 x (ground arith) in absurd (omega (arith, e, none_left))
]

port_bound :
    (port : ℤ)
    → (is_negative port || ltb 65535 (to_nat port)) ≡ false
    → (n : ℕ) × (port ≡ pos n) × (n ≤ 65535)
unfolding is_negative
port_bound (pos n) e = (n, refl, ground arith)
port_bound (negsuc n) e = ground arith

new_space-accepts :
    (b d s : ℤ)
    → 0 < to_nat b
    → 2 ≤ to_nat d
    → 0 < to_nat s
    → ((sp : Space) × (new_space b d s ≡ ok sp))
      ⊎ (new_space b d s ≡ err (errorf "invalid graph degree: %d (must be a power of 2)"))
unfolding new_space
new_space-accepts b d s hb hd hs = elim (Bool-cases (bit_and (to_nat d) (to_nat d - 1) == 0)) [
  | inl power ↦ inl (
    record {
      bits = to_nat b;
      byte_len = (to_nat b + 7) / 8;
      graph_grade = to_nat d;
      succ_list_size = to_nat s;
    },
    ground arith,
  )
  | inr other ↦ inr (ground arith)
]

module _ (split_host_port : String → Option Error) where
  clash : ¬ (◌≡◌ {A = Result (Unit {0})} panic (ok tt))
  clash e = ground arith

  report-ok : (msgs : List String) → report split_host_port msgs ≡ ok tt → msgs ≡ []
  unfolding report
  report-ok [] e = refl
  report-ok (msg ∷ msgs) e = ground arith

  -- If ValidateConfig accepts a configuration, then the port lies in [0, 65535], the degree is at least
  -- 2 and at most the size of the successor list, and NewSpace with its numbers succeeds or complains
  -- that the degree is not a power of two.
  pub validate_config_lem :
      (cfg : Config)
      → validate_config split_host_port cfg ≡ ok tt
      → ((port : ℕ) × (cfg.node.port ≡ pos port) × (port ≤ 65535))
        × (2 ≤ to_nat cfg.dht.de_bruijn.degree)
        × (to_nat cfg.dht.de_bruijn.degree ≤ to_nat cfg.dht.fault_tolerance.successor_list_size)
        × (((sp : Space) × (new_space cfg.dht.id_bits cfg.dht.de_bruijn.degree
                  cfg.dht.fault_tolerance.successor_list_size
                ≡ ok sp))
            ⊎ (new_space cfg.dht.id_bits cfg.dht.de_bruijn.degree
                  cfg.dht.fault_tolerance.successor_list_size
                ≡ err (errorf "invalid graph degree: %d (must be a power of 2)")))
  unfolding errors_with node_errors
  validate_config_lem cfg valid =
      let (n, log, empty) = errors-none cfg valid in
      let (_, e1) = append-empty _ _ empty in
      let (dht, e2) = append-empty _ _ e1 in
      let (_, e3) = append-empty _ _ e2 in
      let (port, _) = check-passed _ _ _ e3 in
      let (bits, degree, size, order) = dht_errors-passed cfg.dht (suc n) dht in
      let two = trailing_zeros-degree cfg.dht.de_bruijn.degree n log degree in
      (
        port_bound cfg.node.port port,
        two,
        is_greater-le _ _ order,
        new_space-accepts _ _ _ bits two size,
      )
    where
      errors-none :
          (cfg : Config)
          → validate_config split_host_port cfg ≡ ok tt
          → (n : ℕ) × (trailing_zeros 64 (to_uint cfg.dht.de_bruijn.degree) ≡ suc n)
            × (errors_with split_host_port cfg (suc n) ≡ [])
      errors-none cfg valid =
          elim (zero_or_suc (trailing_zeros 64 (to_uint cfg.dht.de_bruijn.degree))) [
            | inl zeros ↦
                absurd (clash (unfold validate_config in rw (validate_config, zeros) at valid))
            | inr (n, log) ↦
                (n, log, report-ok _ (unfold validate_config in rw (validate_config, log) at valid))
          ]
