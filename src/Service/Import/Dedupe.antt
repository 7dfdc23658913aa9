-- ===== src/Service/Import/Dedupe.antt =====
-- What the removal of duplicates leaves.
use mathlib.Core.Path.{subst}
use v2ray_e.Base.{
  ℕ, zero, suc, ◌≡◌, ◌∙◌, refl, sym, ap, true, false, List, [], ◌∷◌, ◌++◌, Option, none, some,
  arith, ltb, Bool-cases, Option-cases, inl, inr, length,
}
use v2ray_e.Base.Text.{Text, text_eq, text_eq_iff}
use v2ray_e.Domain.{ProfileItem}
use v2ray_e.Service.Import.{dedup_key, dedupe_from, dedupe_imported, index_of_key, set_at}
use v2ray_e.Tun.Bypass.{mem}
use v2ray_e.Tun.Bypass.Exact.{Distinct, Distinct-concat, mem-append}

abbrev nth : ℕ → List (Option Text) → Option Text
nth i [] = none
nth zero (k ∷ ks) = k
nth (suc i) (k ∷ ks) = nth i ks

module _ (marshal : ProfileItem → Option Text) where
  -- The key at each place, and the keys that there are.
  abbrev slots : List ProfileItem → List (Option Text)
  slots [] = []
  slots (p ∷ ps) = dedup_key marshal p ∷ slots ps

  abbrev present : List (Option Text) → List Text
  present [] = []
  present (none ∷ ks) = present ks
  present (some k ∷ ks) = k ∷ present ks

  pub keys : List ProfileItem → List Text
  keys ps = present (slots ps)

  slots-append :
      (ps : List ProfileItem) (p : ProfileItem)
      → slots (ps ++ p ∷ []) ≡ slots ps ++ dedup_key marshal p ∷ []
  slots-append [] p = refl
  slots-append (q ∷ ps) p = ap (λ l. dedup_key marshal q ∷ l) (slots-append ps p)

  slots-set_at :
      (i : ℕ) (p : ProfileItem) (ps : List ProfileItem)
      → nth i (slots ps) ≡ dedup_key marshal p
      → slots (set_at i p ps) ≡ slots ps
  unfolding set_at
  slots-set_at i p [] h = refl
  slots-set_at zero p (q ∷ ps) h = ap (λ k. k ∷ slots ps) (sym h)
  slots-set_at (suc i) p (q ∷ ps) h = ap (λ l. dedup_key marshal q ∷ l) (slots-set_at i p ps h)

  present-concat :
      (ks : List (Option Text)) (k : Text) → present (ks ++ some k ∷ []) ≡ present ks ++ k ∷ []
  present-concat [] k = refl
  present-concat (none ∷ ks) k = present-concat ks k
  present-concat (some j ∷ ks) k = ap (λ l. j ∷ l) (present-concat ks k)

  present-concat_none : (ks : List (Option Text)) → present (ks ++ none ∷ []) ≡ present ks
  present-concat_none [] = refl
  present-concat_none (none ∷ ks) = present-concat_none ks
  present-concat_none (some j ∷ ks) = ap (λ l. j ∷ l) (present-concat_none ks)

  nth-append :
      (i : ℕ) (ks : List (Option Text)) (k : Option Text) (x : Text)
      → nth i ks ≡ some x
      → nth i (ks ++ k ∷ []) ≡ some x
  nth-append i [] k x h = cc
  nth-append zero (j ∷ ks) k x h = h
  nth-append (suc i) (j ∷ ks) k x h = nth-append i ks k x h

  nth-last : (ps : List ProfileItem) (k : Option Text) → nth (length ps) (slots ps ++ k ∷ []) ≡ k
  nth-last [] k = refl
  nth-last (p ∷ ps) k = nth-last ps k

  -- The indices say where each key stands, no key stands twice, and no other key stands anywhere.
  record Indexed (indices : List (Text × ℕ)) (ps : List ProfileItem) : Type 0 where
    stands : (k : Text) (i : ℕ) → index_of_key k indices ≡ some i → nth i (slots ps) ≡ some k
    only : (k : Text) → index_of_key k indices ≡ none → mem k (keys ps) ≡ false
    once : Distinct (keys ps)

  after_unmarked :
      (indices : List (Text × ℕ)) (ps : List ProfileItem) (p : ProfileItem)
      → dedup_key marshal p ≡ none
      → Indexed indices ps
      → Indexed indices (ps ++ p ∷ [])
  unfolding keys
  after_unmarked indices ps p e h =
      let same = slots-append ps p ∙ ap (λ (k : Option Text). slots ps ++ k ∷ []) e in
      let same_keys = ap present same ∙ present-concat_none (slots ps) in
      record {
        stands = λ k i f.
            subst (λ l. nth i l ≡ some k) (sym same)
              (nth-append i (slots ps) none k (h.stands k i f));
        only = λ k f. subst (λ l. mem k l ≡ false) (sym same_keys) (h.only k f);
        once = subst Distinct (sym same_keys) h.once;
      }

  after_replaced :
      (indices : List (Text × ℕ)) (ps : List ProfileItem) (p : ProfileItem) (key : Text) (i : ℕ)
      → dedup_key marshal p ≡ some key
      → index_of_key key indices ≡ some i
      → Indexed indices ps
      → Indexed indices (set_at i p ps)
  unfolding keys
  after_replaced indices ps p key i e found h =
      let same = slots-set_at i p ps (h.stands key i found ∙ sym e) in
      record {
        stands = λ k j f. subst (λ l. nth j l ≡ some k) (sym same) (h.stands k j f);
        only = λ k f. subst (λ l. mem k (present l) ≡ false) (sym same) (h.only k f);
        once = subst (λ l. Distinct (present l)) (sym same) h.once;
      }

  after_new :
      (indices : List (Text × ℕ)) (ps : List ProfileItem) (p : ProfileItem) (key : Text)
      → dedup_key marshal p ≡ some key
      → index_of_key key indices ≡ none
      → Indexed indices ps
      → Indexed ((key, length ps) ∷ indices) (ps ++ p ∷ [])
  unfolding keys index_of_key mem
  after_new indices ps p key e fresh h =
      let same = slots-append ps p ∙ ap (λ (k : Option Text). slots ps ++ k ∷ []) e in
      let same_keys = ap present same ∙ present-concat (slots ps) key in
      record {
        stands = λ k i f. subst (λ l. nth i l ≡ some k) (sym same) (placed k i f);
        only = λ k f.
            subst (λ l. mem k l ≡ false) (sym same_keys)
              (ground (arith, mem-append k (present (slots ps)) (key ∷ []), f, h.only k));
        once =
            subst Distinct (sym same_keys)
              (Distinct-concat (present (slots ps)) key h.once (h.only key fresh));
      }
    where
      placed :
          (k : Text) (i : ℕ)
          → index_of_key k ((key, length ps) ∷ indices) ≡ some i
          → nth i (slots ps ++ some key ∷ []) ≡ some k
      placed k i f = elim (Bool-cases (text_eq k key)) [
        | inl own ↦
            let at_end : i ≡ length ps = cc (rw (own, index_of_key) at f) in
            let name : k ≡ key = (text_eq_iff k key).0 own in
            rw (at_end, name) (nth-last ps (some key))
        | inr other ↦
            nth-append i (slots ps) (some key) k (h.stands k i (rw (other, index_of_key) at f))
      ]

  dedupe_from-Distinct :
      (indices : List (Text × ℕ)) (result ps : List ProfileItem)
      → Indexed indices result
      → Distinct (keys (dedupe_from marshal indices result ps))
  unfolding dedupe_from
  dedupe_from-Distinct indices result [] h = h.once
  dedupe_from-Distinct indices result (p ∷ ps) h = elim (Option-cases (dedup_key marshal p)) [
    | inl bare ↦
        rw (bare, dedupe_from)
          (dedupe_from-Distinct indices (result ++ p ∷ []) ps
            (after_unmarked indices result p bare h))
    | inr (key, e) ↦ elim (Option-cases (index_of_key key indices)) [
      | inl new ↦
          rw (e, new, dedupe_from)
            (dedupe_from-Distinct ((key, length result) ∷ indices) (result ++ p ∷ []) ps
              (after_new indices result p key e new h))
      | inr (i, old) ↦
          rw (e, old, dedupe_from)
            (dedupe_from-Distinct indices (set_at i p result) ps
              (after_replaced indices result p key i e old h))
    ]
  ]

  short-Distinct : (ps : List ProfileItem) → ltb (length ps) 2 ≡ true → Distinct (keys ps)
  unfolding keys mem
  short-Distinct [] h = tt
  short-Distinct (p ∷ []) h = elim (Option-cases (dedup_key marshal p)) [
    | inl bare ↦ rw bare tt
    | inr (key, e) ↦ rw e (refl, tt)
  ]
  short-Distinct (p ∷ q ∷ ps) h = absurd (ground (arith, h))

  -- After the removal of duplicates no two profiles have the same key.
  pub dedupe_imported-Distinct :
      (ps : List ProfileItem) → Distinct (keys (dedupe_imported marshal ps))
  unfolding dedupe_imported keys index_of_key mem
  dedupe_imported-Distinct ps = elim (Bool-cases (ltb (length ps) 2)) [
    | inl short ↦ rw (short, dedupe_imported) (short-Distinct ps short)
    | inr long ↦ rw (long, dedupe_imported) (dedupe_from-Distinct [] [] ps empty)
  ]
    where
      empty : Indexed [] []
      empty = record { stands = λ k i f. cc; only = λ k f. refl; once = tt }
