-- ===== src/Config/Load/Peers.antt =====
-- The comma-separated list of peers.
use Prim.Native.String.{String}
use Prim.Native.Char.{Char, code}
use text.Mathlib.TextBridge.{to_list, of_list, to_list-of_list}
use text.Mathlib.TextEquality.{eq_iff}
use text.Mathlib.Text.{◌==◌ as str_eq}
use koorde_dht.Prelude.{
  Bool, false, List, [], ◌∷◌, ◌++◌, ◌≡◌, ◌≢◌, refl, sym, ap, ◌∙◌, map, ◌==◌, All, inl, inr,
  Bool-cases, arith,
}
use koorde_dht.Config.Load.{Environment, split, trim_space, trimmed, override_string_slice}

-- The entries with a comma between two of them.
unfoldable pub join : List (List Char) → List Char
join [] = []
join (e ∷ []) = e
join (e ∷ f ∷ es) = e ++ "," ∷ join (f ∷ es)

-- An entry with a character, without a comma, and without spaces at its ends.
pub record IsEntry (is_space : Char → Bool) (e : List Char) : Type 0 where
  pub nonempty : e ≢ []
  pub commaless : All (λ (c : Char). (code c == 44) ≡ false) e
  pub unspaced : trim_space is_space e ≡ e

split-commaless : (e : List Char) → All (λ (c : Char). (code c == 44) ≡ false) e → split e ≡ e ∷ []
unfolding split
split-commaless [] h = refl
split-commaless (c ∷ e) h = rw h.0 (rw (split-commaless e h.1) refl)

split-append :
    (e cs : List Char)
    → All (λ (c : Char). (code c == 44) ≡ false) e
    → split (e ++ "," ∷ cs) ≡ e ∷ split cs
unfolding split
split-append [] cs h = refl
split-append (c ∷ e) cs h = rw h.0 (rw (split-append e cs h.1) refl)

split-join :
    {is_space : Char → Bool} (e : List Char) (es : List (List Char))
    → All (IsEntry is_space) (e ∷ es)
    → split (join (e ∷ es)) ≡ e ∷ es
unfolding join
split-join e [] h = split-commaless e h.0.commaless
split-join e (f ∷ es) h =
    split-append e (join (f ∷ es)) h.0.commaless ∙ ap (λ t. e ∷ t) (split-join f es h.1)

trimmed_lem :
    (is_space : Char → Bool) (es : List (List Char))
    → All (IsEntry is_space) es
    → trimmed is_space es ≡ map of_list es
unfolding trimmed
trimmed_lem is_space [] h = refl
trimmed_lem is_space ([] ∷ es) h = absurd (h.0.nonempty refl)
trimmed_lem is_space ((c ∷ e) ∷ es) h =
    rw (trimmed, h.0.unspaced) (ap (λ t. of_list (c ∷ e) ∷ t) (trimmed_lem is_space es h.1))

join-nonempty :
    {is_space : Char → Bool} (e : List Char) (es : List (List Char))
    → All (IsEntry is_space) (e ∷ es)
    → join (e ∷ es) ≢ []
unfolding join
join-nonempty [] es h eq = absurd (h.0.nonempty refl)
join-nonempty (c ∷ e) [] h eq = absurd (ground arith)
join-nonempty (c ∷ e) (f ∷ es) h eq = absurd (ground arith)

-- If a variable is the comma-separated text of entries that are not empty, have no comma and neither
-- start nor end with a space, at least one, then OverrideStringSlice sets the field to those
-- entries, in their order.
pub override_string_slice_lem :
    (env : Environment) (field : List String) (name : String) (e : List Char)
    (es : List (List Char))
    → env.getenv name ≡ of_list (join (e ∷ es))
    → All (IsEntry env.is_space) (e ∷ es)
    → override_string_slice env field name ≡ map of_list (e ∷ es)
unfolding override_string_slice
override_string_slice_lem env field name e es set h =
    let text : to_list (env.getenv name) ≡ join (e ∷ es) =
      ap to_list set ∙ to_list-of_list (join (e ∷ es)) in
    elim (Bool-cases (str_eq (env.getenv name) "")) [
      | inl empty ↦ absurd (
          join-nonempty e es h
            (sym text ∙ ap to_list ((eq_iff (env.getenv name) "").0 empty) ∙ to_list-of_list []))
      | inr full ↦ rw full (
          ap (λ (t : List Char). trimmed env.is_space (split t)) text
          ∙ ap (trimmed env.is_space) (split-join e es h)
          ∙ trimmed_lem env.is_space (e ∷ es) h)
    ]
