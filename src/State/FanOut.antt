-- ===== src/State/FanOut.antt =====
-- merge_business_channel of core/state.py: the deltas of parallel phases give the same state in
-- whatever order they arrive.
pub mod Order
use graph_skill_runtime.Common.{
  ℕ, String, Bool, true, false, not, ◌&&◌, ◌||◌, Option, none, some, List, [], ◌∷◌, ◌≡◌, ◌≢◌, refl,
  sym, ◌∙◌, ap, arith, ◌==◌, eq_iff, eq_refl, if◌then◌else◌, is_some, is_empty, inl, inr, ◌⊎◌,
  Option-cases, Bool-cases, same_of_eq, All,
}
use mathlib.Core.Path.{subst}
use mathlib.Core.List.{Permᴰ}
use graph_skill_runtime.Json
use graph_skill_runtime.Json.{JsonObject, object, member, empty, get-put}
use graph_skill_runtime.State.{
  update_all, as_object, Update, full, delta, merge_outputs, merge_business_channel,
}
use graph_skill_runtime.State.Fields.{is_dict, over, get-update_all, get-pop, is_dict-pop}

-- A phase's entry among the phase_outputs.
unfoldable pub phase_output : JsonObject → String → Option Json.Json
unfolding as_object Json.get
phase_output o p = Json.get (as_object (Json.get o "phase_outputs")) p

-- What a phase writes: a dict whose phase_outputs, if any, is a dict, and which is no invoke input.
pub record IsDelta (u : JsonObject) : Type 0 where
  pub keyed : is_dict u ≡ true
  pub outputs_keyed : is_dict (as_object (Json.get u "phase_outputs")) ≡ true
  pub no_inputs : Json.get u "inputs" ≡ none

-- The same fields and the same outputs of each phase.
pub record IsSame (s t : JsonObject) : Type 0 where
  pub fields : (k : String) → (k == "phase_outputs") ≡ false → Json.get s k ≡ Json.get t k
  pub outputs : (p : String) → phase_output s p ≡ phase_output t p

-- No field and no phase is written by both.
pub record IsDisjoint (u v : JsonObject) : Type 0 where
  pub fields :
      (k : String)
      → (k == "phase_outputs") ≡ false
      → (is_some (Json.get u k) && is_some (Json.get v k)) ≡ false
  pub outputs : (p : String) → (is_some (phase_output u p) && is_some (phase_output v p)) ≡ false

object_cases :
    (o : Option Json.Json)
    → ((p : JsonObject) × (o ≡ some (object p)))
      ⊎ ((as_object o ≡ empty) × ((m : JsonObject) → merge_outputs o m ≡ m))
unfolding as_object merge_outputs
object_cases none = inr (refl, λ m. refl)
object_cases (some Json.null) = inr (refl, λ m. refl)
object_cases (some (Json.boolean b)) = inr (refl, λ m. refl)
object_cases (some (Json.number n)) = inr (refl, λ m. refl)
object_cases (some (Json.text t)) = inr (refl, λ m. refl)
object_cases (some (Json.array a)) = inr (refl, λ m. refl)
object_cases (some (object p)) = inl (p, refl)

module _ (s u : JsonObject) (h : IsDelta u) where
  abbrev merged : JsonObject
  merged = update_all s (Json.pop u "phase_outputs")

  get-merged :
      (k : String)
      → Json.get merged k
        ≡ over (if "phase_outputs" == k then none else Json.get u k) (Json.get s k)
  get-merged k =
      get-update_all (Json.pop u "phase_outputs") s k (is_dict-pop u "phase_outputs" h.keyed)
      ∙ ap (λ o. over o (Json.get s k)) (get-pop u "phase_outputs" k h.keyed)

  merge_lem : merge_business_channel s (delta u) ≡ merge_outputs (Json.get u "phase_outputs") merged
  unfolding merge_business_channel
  merge_lem = rw (merge_business_channel, h.no_inputs) refl

  merge-field :
      (k : String)
      → (k == "phase_outputs") ≡ false
      → Json.get (merge_business_channel s (delta u)) k ≡ over (Json.get u k) (Json.get s k)
  unfolding merge_outputs
  merge-field k n =
      ap (λ o. Json.get o k) merge_lem ∙ elim (object_cases (Json.get u "phase_outputs")) [
        | inr (e, same) ↦
            ap (λ o. Json.get o k) (same merged)
            ∙ ground (arith, get-merged k, eq_iff "phase_outputs" k, eq_iff k "phase_outputs")
        | inl (p, e) ↦
            let all = update_all (as_object (Json.get merged "phase_outputs")) p in
            rw (e, merge_outputs)
              (get-put merged "phase_outputs" k (object all)
                ∙ ground (arith, get-merged k, eq_iff "phase_outputs" k, eq_iff k "phase_outputs"))
      ]

  merge-output :
      (p : String)
      → phase_output (merge_business_channel s (delta u)) p
        ≡ over (phase_output u p) (phase_output s p)
  unfolding merge_outputs phase_output as_object Json.get
  merge-output p =
      let kept : Json.get merged "phase_outputs" ≡ Json.get s "phase_outputs" =
        get-merged "phase_outputs" ∙ ground (arith, eq_refl "phase_outputs") in
      ap (λ o. phase_output o p) merge_lem ∙ elim (object_cases (Json.get u "phase_outputs")) [
        | inr (e, same) ↦
            ap (λ o. phase_output o p) (same merged)
            ∙ ap (λ o. Json.get (as_object o) p) kept
            ∙ ap (λ o. over (Json.get o p) (phase_output s p)) (sym e)
        | inl (q, e) ↦
            let old = as_object (Json.get merged "phase_outputs") in
            let keyed : is_dict q ≡ true =
              ap (λ o. is_dict (as_object o)) (sym e) ∙ h.outputs_keyed in
            let written : phase_output (merge_outputs (some (object q)) merged) p
                ≡ Json.get (update_all old q) p =
              ap (λ o. Json.get (as_object o) p)
                (get-put merged "phase_outputs" "phase_outputs" (object (update_all old q))) in
            ap (λ o. phase_output (merge_outputs o merged) p) e
            ∙ written
            ∙ get-update_all q old p keyed
            ∙ ap (λ o. over (Json.get q p) (Json.get (as_object o) p)) kept
            ∙ ap (λ o. over (Json.get (as_object o) p) (phase_output s p)) (sym e)
      ]

pub IsSame-refl : (s : JsonObject) → IsSame s s
IsSame-refl s = record { fields = λ k n. refl; outputs = λ p. refl }

pub IsSame-trans : (s t u : JsonObject) → IsSame s t → IsSame t u → IsSame s u
IsSame-trans s t u g h = record {
  fields = λ k n. g.fields k n ∙ h.fields k n;
  outputs = λ p. g.outputs p ∙ h.outputs p;
}

pub IsSame-merge :
    (s t u : JsonObject)
    → IsDelta u
    → IsSame s t
    → IsSame (merge_business_channel s (delta u)) (merge_business_channel t (delta u))
IsSame-merge s t u d h = record {
  fields = λ k n.
      merge-field s u d k n ∙ ap (over (Json.get u k)) (h.fields k n) ∙ sym (merge-field t u d k n);
  outputs = λ p.
      merge-output s u d p
      ∙ ap (over (phase_output u p)) (h.outputs p)
      ∙ sym (merge-output t u d p);
}

over_swap {ℓ} :
    {A : Type ℓ} (a b c : Option A)
    → (is_some a && is_some b) ≡ false
    → over b (over a c) ≡ over a (over b c)
over_swap none b c h = refl
over_swap (some a) none c h = refl
over_swap (some a) (some b) c h = ground arith

pub merge_swap :
    (s u v : JsonObject)
    → IsDelta u
    → IsDelta v
    → IsDisjoint u v
    → IsSame
        (merge_business_channel (merge_business_channel s (delta u)) (delta v))
        (merge_business_channel (merge_business_channel s (delta v)) (delta u))
merge_swap s u v du dv x =
    let su = merge_business_channel s (delta u) in
    let sv = merge_business_channel s (delta v) in
    record {
      fields = λ k n.
          merge-field su v dv k n
          ∙ ap (over (Json.get v k)) (merge-field s u du k n)
          ∙ over_swap (Json.get u k) (Json.get v k) (Json.get s k) (x.fields k n)
          ∙ sym (merge-field sv u du k n ∙ ap (over (Json.get u k)) (merge-field s v dv k n));
      outputs = λ p.
          merge-output su v dv p
          ∙ ap (over (phase_output v p)) (merge-output s u du p)
          ∙ over_swap (phase_output u p) (phase_output v p) (phase_output s p) (x.outputs p)
          ∙ sym (merge-output sv u du p ∙ ap (over (phase_output u p)) (merge-output s v dv p));
    }

-- The reducer over the deltas of a superstep, in the order in which they arrive.
unfoldable pub merge_deltas : JsonObject → List JsonObject → JsonObject
unfolding merge_business_channel
merge_deltas s [] = s
merge_deltas s (u ∷ us) = merge_deltas (merge_business_channel s (delta u)) us

-- Deltas of which no two write the same field or the same phase.
abbrev pub AreParallel : List JsonObject → Type 0
AreParallel [] = Unit
AreParallel (u ∷ us) = IsDelta u × All (λ v. IsDisjoint u v) us × AreParallel us
