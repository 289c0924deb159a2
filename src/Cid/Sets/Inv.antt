-- ===== src/Cid/Sets/Inv.antt =====
-- The sets of all paths: what is well-formed, and what an operation on one path or a new path keeps.
use rquic.Base.{ℕ, ◌+◌, ◌%◌, ◌^◌, ◌≡◌, ◌≢◌, refl, sym, ap, arith, Bool}
use rquic.Base.{List, [], ◌∷◌, ◌++◌, map, All, All-append, none, ◌==◌}
use rquic.Base.{Bool-cases, Option-cases, inl, inr, ==→ne}
use rquic.Cid.{CidSetInner, CidSet, SetState}
use rquic.Base.Count.{bit, count, count-append}
use rquic.Cid.Inv
use rquic.Cid.Inv.{Keeps, Agrees}
use rquic.Cid.Sets.{
  find_path, get_path_cid_set, at_path, on_path, set_rank, inner_init, cid_set_add_path,
}
use rquic.Cid.{incr_word, SetState.set_unused, SetState.set_used, SetState.set_abandoned}

unfoldable pub Distinct : List ℕ → Type 0
Distinct [] = Unit
Distinct (p ∷ ps) = All (λ (q : ℕ). q ≢ p) ps × Distinct ps

unfoldable pub set_in : SetState → CidSetInner → Bool
set_in state s = set_rank s.set_state == set_rank state

unfoldable pub path_ids : List CidSetInner → List ℕ
path_ids l = map (λ (s : CidSetInner). s.path_id) l

-- The counters of the sets by state agree with the list, as words.
unfoldable pub SetsAgree : CidSet → Type 0
SetsAgree c =
    (c.unused_set_cnt ≡ count (set_in set_unused) c.cid_set_list % 2 ^ 32)
    × (c.used_set_cnt ≡ count (set_in set_used) c.cid_set_list % 2 ^ 32)
    × (c.abandoned_set_cnt ≡ count (set_in set_abandoned) c.cid_set_list % 2 ^ 32)

-- The set of every path is well-formed, no path has two, and the sets are counted by state.
unfoldable pub IsValid : CidSet → Type 0
IsValid c = All Inv.IsValid c.cid_set_list × Distinct (path_ids c.cid_set_list) × SetsAgree c

module _ {A : Type 0} (path_id : ℕ) (missing : A) (f : CidSetInner → A × CidSetInner) where
  -- An operation on the set of one path keeps the others.
  at_path-Keeps :
      (l : List CidSetInner)
      → ((s : CidSetInner) → Inv.IsValid s → Keeps s (f s).1)
      → All Inv.IsValid l
      → All Inv.IsValid (at_path path_id missing f l).1
        × (path_ids (at_path path_id missing f l).1 ≡ path_ids l)
        × ((state : SetState)
            → count (set_in state) (at_path path_id missing f l).1 ≡ count (set_in state) l)
  unfolding at_path path_ids count set_in Keeps
  at_path-Keeps [] k a = (tt, refl, λ state. refl)
  at_path-Keeps (s ∷ l) k a =
      let rest = at_path-Keeps l k a.1 in
      elim (Bool-cases (s.path_id == path_id)) [
        | inl t ↦ rw t (
          ((k s a.0).0, a.1),
          ap (λ (p : ℕ). p ∷ path_ids l) (k s a.0).1,
          λ state.
              ap (λ (st : SetState). bit (set_rank st == set_rank state) + count (set_in state) l)
                (k s a.0).2,
        )
        | inr t ↦ rw t (
          (a.0, rest.0),
          ap (λ (ps : List ℕ). s.path_id ∷ ps) rest.1,
          λ state. omega (arith, rest.2 state),
        )
      ]

  pub on_path-IsValid :
      (c : CidSet)
      → ((s : CidSetInner) → Inv.IsValid s → Keeps s (f s).1)
      → IsValid c
      → IsValid (on_path path_id missing f c).1
  unfolding on_path IsValid SetsAgree
  on_path-IsValid c k v =
      let done = at_path-Keeps c.cid_set_list k v.0 in
      (
        done.0,
        rw (done.1) v.1,
        (
          omega (arith, v.2, done.2 set_unused),
          omega (arith, v.2, done.2 set_used),
          omega (arith, v.2, done.2 set_abandoned),
        ),
      )

-- A path that is not found is not there.
find_path-none :
    (l : List CidSetInner) (path_id : ℕ)
    → find_path l path_id ≡ none
    → All (λ (q : ℕ). q ≢ path_id) (path_ids l)
unfolding find_path path_ids
find_path-none [] path_id h = tt
find_path-none (s ∷ l) path_id h = elim (Bool-cases (s.path_id == path_id)) [
  | inl t ↦ absurd (cc (h, t))
  | inr t ↦ (==→ne _ _ t, find_path-none l path_id (cc (h, t)))
]

Distinct-end :
    (l : List CidSetInner) (s : CidSetInner)
    → Distinct (path_ids l)
    → All (λ (q : ℕ). q ≢ s.path_id) (path_ids l)
    → Distinct (path_ids (l ++ s ∷ []))
unfolding Distinct path_ids
Distinct-end [] s d a = (tt, tt)
Distinct-end (t ∷ l) s d a = (others l d.0 a.0, Distinct-end l s d.1 a.1)
  where
    others :
        (l : List CidSetInner)
        → All (λ (q : ℕ). q ≢ t.path_id) (map (λ (u : CidSetInner). u.path_id) l)
        → t.path_id ≢ s.path_id
        → All (λ (q : ℕ). q ≢ t.path_id) (map (λ (u : CidSetInner). u.path_id) (l ++ s ∷ []))
    others [] d ne = (λ e. ne (sym e), tt)
    others (u ∷ l) d ne = (d.0, others l d.1 ne)

inner_init-IsValid : (path_id : ℕ) → Inv.IsValid (inner_init path_id)
unfolding Inv.IsValid Agrees inner_init count
inner_init-IsValid path_id = ((refl, refl, refl, refl), tt)

one_set :
    (state : SetState) (l : List CidSetInner) (s : CidSetInner)
    → count (set_in state) (l ++ s ∷ []) ≡ count (set_in state) l + bit (set_in state s)
unfolding count
one_set state l s = omega (arith, count-append (set_in state) l (s ∷ []))

-- The set of a new path at the end.
added :
    (c : CidSet) (p : ℕ)
    → find_path c.cid_set_list p ≡ none
    → IsValid c
    → IsValid (record c {
      cid_set_list = c.cid_set_list ++ inner_init p ∷ [];
      unused_set_cnt = incr_word c.unused_set_cnt;
    })
unfolding IsValid SetsAgree inner_init set_in set_rank bit
added c p t v =
    let one = λ (state : SetState). one_set state c.cid_set_list (inner_init p) in
    (
      All-append Inv.IsValid c.cid_set_list (inner_init p ∷ []) v.0 (inner_init-IsValid p, tt),
      Distinct-end c.cid_set_list (inner_init p) v.1 (find_path-none c.cid_set_list p t),
      (
        omega (arith, v.2, one set_unused),
        omega (arith, v.2, one set_used),
        omega (arith, v.2, one set_abandoned),
      ),
    )

pub cid_set_add_path-IsValid : (c : CidSet) (p : ℕ) → IsValid c → IsValid (cid_set_add_path c p)
unfolding cid_set_add_path get_path_cid_set
cid_set_add_path-IsValid c p v = elim (Option-cases (find_path c.cid_set_list p)) [
  | inr (s, t) ↦ rw (t, cid_set_add_path) v
  | inl t ↦ rw (t, cid_set_add_path) (added c p t v)
]
