-- ===== src/Cid/Sets/Update.antt =====
-- rqc_cid_set_update_state keeps the sets counted by state.
use rquic.Base.{ℕ, ◌+◌, ◌%◌, ◌^◌, ◌≡◌, ◌≢◌, refl, ap, arith}
use rquic.Base.{List, [], ◌∷◌, All, some, ◌==◌}
use rquic.Base.{Bool-cases, Option-cases, inl, inr, ==→ne}
use rquic.Cid.{CidSetInner, CidSet, SetState}
use rquic.Base.Count.{bit, count}
use rquic.Cid.Inv
use rquic.Cid.Inv.{Keeps, Agrees}
use rquic.Cid.Sets.{
  find_path, get_path_cid_set, at_path, on_path, set_rank, cid_set_update_state, set_cnt_incr,
  set_cnt_decr,
}
use rquic.Cid.{SetState.set_unused, SetState.set_used, SetState.set_abandoned}
use rquic.Cid.Sets.Inv.{IsValid, SetsAgree, path_ids, set_in}

-- The first set of the path comes into another state.
restated :
    (l : List CidSetInner) (p : ℕ) (state : SetState) (s : CidSetInner)
    → find_path l p ≡ some s
    → All Inv.IsValid l
    → All Inv.IsValid (at_path p tt (λ t. (tt, record t { set_state = state })) l).1
      × (path_ids (at_path p tt (λ t. (tt, record t { set_state = state })) l).1 ≡ path_ids l)
      × ((st : SetState)
          → count (set_in st) (at_path p tt (λ t. (tt, record t { set_state = state })) l).1
              + bit (set_in st s)
            ≡ count (set_in st) l + bit (set_rank state == set_rank st))
unfolding find_path at_path path_ids count set_in Inv.IsValid Agrees
restated [] p state s h a = absurd (cc h)
restated (x ∷ l) p state s h a = elim (Bool-cases (x.path_id == p)) [
  | inl t ↦ let e : x ≡ s = cc (h, t) in rw⁻¹ e (rw t (a, refl, λ st. omega arith))
  | inr t ↦
      let rest = restated l p state s (cc (h, t)) a.1 in
      rw t
        ((a.0, rest.0), ap (λ (ps : List ℕ). x.path_id ∷ ps) rest.1, λ st. omega (arith, rest.2 st))
]

SetsTally : (SetState → ℕ) → CidSet → Type 0
SetsTally t c =
    (c.unused_set_cnt ≡ t set_unused % 2 ^ 32)
    × (c.used_set_cnt ≡ t set_used % 2 ^ 32)
    × (c.abandoned_set_cnt ≡ t set_abandoned % 2 ^ 32)

three :
    {P : SetState → Type 0} → ((st : SetState) → P st) → P set_unused × P set_used × P set_abandoned
three f = (f set_unused, f set_used, f set_abandoned)

-- One set less in the old state and one more in the new one.
recounted :
    (old new : SetState) (c : CidSet) (t t' : SetState → ℕ)
    → SetsTally t c
    → set_rank old ≢ set_rank new
    → ((st : SetState)
        → t' st + bit (set_rank old == set_rank st) ≡ t st + bit (set_rank new == set_rank st))
    → SetsTally t' (set_cnt_incr new (set_cnt_decr old c))
unfolding SetsTally set_cnt_incr set_cnt_decr set_rank bit
recounted set_unused set_unused c t t' h ne m = absurd (ne refl)
recounted set_unused set_used c t t' h ne m = ground (arith, h, three m)
recounted set_unused set_abandoned c t t' h ne m = ground (arith, h, three m)
recounted set_used set_unused c t t' h ne m = ground (arith, h, three m)
recounted set_used set_used c t t' h ne m = absurd (ne refl)
recounted set_used set_abandoned c t t' h ne m = ground (arith, h, three m)
recounted set_abandoned set_unused c t t' h ne m = ground (arith, h, three m)
recounted set_abandoned set_used c t t' h ne m = ground (arith, h, three m)
recounted set_abandoned set_abandoned c t t' h ne m = absurd (ne refl)

set_cnt-frame :
    (old new : SetState) (c : CidSet)
    → (set_cnt_incr new (set_cnt_decr old c)).cid_set_list ≡ c.cid_set_list
unfolding set_cnt_incr set_cnt_decr
set_cnt-frame set_unused set_unused c = refl
set_cnt-frame set_unused set_used c = refl
set_cnt-frame set_unused set_abandoned c = refl
set_cnt-frame set_used set_unused c = refl
set_cnt-frame set_used set_used c = refl
set_cnt-frame set_used set_abandoned c = refl
set_cnt-frame set_abandoned set_unused c = refl
set_cnt-frame set_abandoned set_used c = refl
set_cnt-frame set_abandoned set_abandoned c = refl

updated :
    (c : CidSet) (p : ℕ) (state : SetState) (s : CidSetInner)
    → find_path c.cid_set_list p ≡ some s
    → set_rank s.set_state ≢ set_rank state
    → IsValid c
    → IsValid
        (on_path p tt
          (λ t. (tt, record t { set_state = state }))
          (set_cnt_incr state (set_cnt_decr s.set_state c))).1
unfolding on_path IsValid SetsAgree SetsTally set_in
updated c p state s h ne v =
    let r = restated c.cid_set_list p state s h v.0 in
    let counted =
      recounted s.set_state state c (λ st. count (set_in st) c.cid_set_list)
        (λ st.
          count (set_in st)
            (at_path p tt (λ t. (tt, record t { set_state = state })) c.cid_set_list).1)
        v.2 ne r.2 in
    simp (set_cnt-frame s.set_state state c) (r.0, rw (r.1) v.1, counted)

pub cid_set_update_state-IsValid :
    (c : CidSet) (p : ℕ) (state : SetState) → IsValid c → IsValid (cid_set_update_state c p state)
unfolding cid_set_update_state get_path_cid_set
cid_set_update_state-IsValid c p state v = elim (Option-cases (find_path c.cid_set_list p)) [
  | inl t ↦ rw (t, cid_set_update_state) v
  | inr (s, t) ↦ elim (Bool-cases (set_rank s.set_state == set_rank state)) [
    | inl u ↦ rw (t, u, cid_set_update_state) v
    | inr u ↦ rw (t, u, cid_set_update_state) (updated c p state s t (==→ne _ _ u) v)
  ]
]
