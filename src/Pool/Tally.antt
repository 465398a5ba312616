-- ===== src/Pool/Tally.antt =====
-- The references of the other nodes' addresses, when every address can be dialled.
use Prim.Native.String.{String}
use text.Mathlib.Text.{◌==◌ as str_eq}
use text.Mathlib.TextEquality.{eq_iff}
use koorde_dht.Prelude.{
  ℕ, ◌+◌, ◌-◌, ◌≡◌, ◌∙◌, refl, sym, ap, Bool, true, false, Option, none, some, arith, Option-cases,
  inl, inr, Bool-cases, ◌⊎◌,
}
use koorde_dht.Prelude.Assoc.{lookup}
use koorde_dht.Result.{Error, wrap, no_conn_in_pool}
use koorde_dht.Pool.{
  Pool, returns, empty_address, self_address, add_ref, release, get_from_pool, get_from_pool_locked,
  dial_ephemeral,
}
use koorde_dht.Pool.Counts.{IsOpen, refs, apply, next_count, gain-Counted, lose-Counted}

abbrev pub ind : Bool → ℕ
ind true = 1
ind false = 0

-- An address that is neither empty nor the pool's own.
pub record IsOther (p : Pool) (a : String) : Type 0 where
  pub nonempty : str_eq a "" ≡ false
  pub distinct : str_eq a p.self_addr ≡ false

-- The pool q that a call leaves: it is in service, it is the same node's, and the references of another node's
-- address are the function f of those that it had.
pub record Leaves (p q : Pool) (f : String → ℕ → ℕ) : Type 0 where
  pub in_service : IsOpen q
  pub same_self : q.self_addr ≡ p.self_addr
  pub tally : (a : String) → IsOther p a → refs q a ≡ f a (refs p a)

pub Leaves-same :
    (p : Pool) (f : String → ℕ → ℕ)
    → IsOpen p
    → ((a : String) → IsOther p a → f a (refs p a) ≡ refs p a)
    → Leaves p p f
Leaves-same p f h e = record {
  in_service = h;
  same_self = refl;
  tally = λ a other. sym (e a other);
}

pub Leaves-map :
    {p q : Pool} {f g : String → ℕ → ℕ}
    → Leaves p q f
    → ((a : String) → IsOther p a → f a (refs p a) ≡ g a (refs p a))
    → Leaves p q g
Leaves-map l e = record {
  in_service = l.in_service;
  same_self = l.same_self;
  tally = λ a other. l.tally a other ∙ e a other;
}

pub IsOther-after :
    {p q : Pool} {a : String} → q.self_addr ≡ p.self_addr → IsOther p a → IsOther q a
IsOther-after {a = a} e other = record {
  nonempty = other.nonempty;
  distinct = ap (str_eq a) e ∙ other.distinct;
}

pub Leaves-then :
    {p q r : Pool} {f g : String → ℕ → ℕ}
    → Leaves p q f
    → Leaves q r g
    → Leaves p r (λ a n. g a (f a n))
Leaves-then {g = g} l m = record {
  in_service = m.in_service;
  same_self = m.same_self ∙ l.same_self;
  tally = λ a other. m.tally a (IsOther-after l.same_self other) ∙ ap (g a) (l.tally a other);
}

clash : ¬ (true ≡ false)
clash e = ground arith

pub differs : (a b c : String) → str_eq b c ≡ true → str_eq a c ≡ false → str_eq b a ≡ false
differs a b c h k = elim (Bool-cases (str_eq b a)) [
  | inl same ↦ absurd (clash (sym h ∙ ap (λ s. str_eq s c) ((eq_iff b a).0 same) ∙ k))
  | inr other ↦ other
]

module _ (dial hang_up : String → Option Error) where
  abbrev pub AllDialled : Type 0
  AllDialled = (addr : String) → dial addr ≡ none

  pub add_ref-Leaves :
      AllDialled
      → (p : Pool) (b : String) → IsOpen p
      → (e : Option Error) × (q : Pool) × (add_ref dial hang_up p b ≡ returns e q)
        × Leaves p q (λ a n. n + ind (str_eq b a))
  unfolding apply add_ref
  add_ref-Leaves dialled p b h = elim (Bool-cases (str_eq b "")) [
    | inl empty ↦ (
      some empty_address,
      p,
      ground arith,
      Leaves-same p _ h (λ a other. rw (differs a b "" empty other.nonempty) (omega arith)),
    )
    | inr nonempty ↦ elim (Bool-cases (str_eq b p.self_addr)) [
      | inl own ↦ (
        some self_address,
        p,
        ground arith,
        Leaves-same p _ h
            (λ a other. rw (differs a b p.self_addr own other.distinct) (omega arith)),
      )
      | inr distinct ↦
          let (e, q, added, counted) = gain-Counted dial hang_up p b h (nonempty, distinct) in
          (
            e,
            q,
            added,
            record {
              in_service = counted.in_service;
              same_self = counted.same_self;
              tally = λ a other.
                  counted.counts a
                  ∙ unfold next_count in
                    elim (Bool-cases (str_eq b a)) [
                      | inl same ↦ rw (same, dialled b) (ground arith)
                      | inr apart ↦ rw apart (omega arith)
                    ];
            },
          )
    ]
  ]

  pub release-Leaves :
      (p : Pool) (b : String)
      → IsOpen p
      → (e : Option Error) × (q : Pool) × (release dial hang_up p b ≡ returns e q)
        × Leaves p q (λ a n. n - ind (str_eq b a))
  unfolding apply release
  release-Leaves p b h = elim (Bool-cases (str_eq b "")) [
    | inl empty ↦ (
      some empty_address,
      p,
      ground arith,
      Leaves-same p _ h (λ a other. rw (differs a b "" empty other.nonempty) (omega arith)),
    )
    | inr nonempty ↦
        let (e, q, released, counted) = lose-Counted dial hang_up p b h nonempty in
        (
          e,
          q,
          released,
          record {
            in_service = counted.in_service;
            same_self = counted.same_self;
            tally = λ a other.
                counted.counts a
                ∙ unfold next_count in
                  elim (Bool-cases (str_eq b a)) [
                    | inl same ↦ rw same refl
                    | inr apart ↦ rw apart (omega arith)
                  ];
          },
        )
  ]

get_from_pool-same :
    (p : Pool) (b : String) → IsOpen p → (e : Option Error) × (get_from_pool p b ≡ returns e p)
unfolding get_from_pool get_from_pool_locked
get_from_pool-same p b h = elim (Option-cases (lookup str_eq b p.clients)) [
  | inl absent ↦ elim (Bool-cases (str_eq b "")) [
    | inl empty ↦ (some empty_address, ground arith)
    | inr nonempty ↦ elim (Bool-cases (str_eq b p.self_addr)) [
      | inl own ↦ (some self_address, ground arith)
      | inr distinct ↦ (some no_conn_in_pool, ground arith)
    ]
  ]
  | inr (k, there) ↦ elim (Bool-cases (str_eq b "")) [
    | inl empty ↦ (some empty_address, ground arith)
    | inr nonempty ↦ elim (Bool-cases (str_eq b p.self_addr)) [
      | inl own ↦ (some self_address, ground arith)
      | inr distinct ↦ (none, ground arith)
    ]
  ]
]

pub get_from_pool-cases :
    (p : Pool) (b : String)
    → IsOpen p
    → (get_from_pool p b ≡ returns none p)
      ⊎ ((e : Error) × (get_from_pool p b ≡ returns (some e) p))
get_from_pool-cases p b h = let (e, got) = get_from_pool-same p b h in split e got
  where
    split :
        (e : Option Error)
        → get_from_pool p b ≡ returns e p
        → (get_from_pool p b ≡ returns none p)
          ⊎ ((e : Error) × (get_from_pool p b ≡ returns (some e) p))
    split none got = inl got
    split (some e) got = inr (e, got)

pub dial_ephemeral-cases :
    (dial hang_up : String → Option Error) (p : Pool) (b : String)
    → IsOpen p
    → (dial_ephemeral dial hang_up p b ≡ returns none p)
      ⊎ ((e : Error) × (dial_ephemeral dial hang_up p b ≡ returns (some e) p))
unfolding dial_ephemeral
dial_ephemeral-cases dial hang_up p b h = elim (Bool-cases (str_eq b "")) [
  | inl empty ↦ inr (empty_address, ground arith)
  | inr nonempty ↦ elim (Bool-cases (str_eq b p.self_addr)) [
    | inl own ↦ inr (self_address, ground arith)
    | inr distinct ↦ elim (Option-cases (dial b)) [
      | inl dialled ↦ inl (ground arith)
      | inr (e, failed) ↦ inr (wrap "clientpool: failed to dial %s: %w" e, ground arith)
    ]
  ]
]
