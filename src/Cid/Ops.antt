-- ===== src/Cid/Ops.antt =====
-- The operations on the set of one path keep it well-formed.
use rquic.Base.{ℕ, ◌+◌, ◌%◌, ◌^◌, ◌≡◌, refl, arith, Bool, true, false}
use rquic.Base.{List, [], ◌∷◌, ◌++◌, Option, none, some, All, All-append}
use rquic.Base.{ltb, if◌then◌else◌, Bool-cases, inl, inr}
use rquic.Cid.{Cid, CidState, CidInner, CidSetInner, count_in, count_out, insert_cid}
use rquic.Cid.{max_uint64_value, unlink, settle_delete, delete_cid, cid_is_equal}
use rquic.Base.Count.{bit, count, count-append}
use rquic.Cid.Inv.{
  IsValid, Agrees, Keeps, Keeps-refl, OnPath, is_acked_unused, count_in-Agrees, count_out-Agrees,
  count_in-frame, count_out-frame,
}

-- The set `s` becomes `t`, whose nodes and counters are as given.
pub Keeps-of :
    (s t : CidSetInner) (l : List CidInner)
    → Agrees (λ (p : CidInner → Bool). count p l) t
    → t.cid_list ≡ l
    → t.path_id ≡ s.path_id
    → t.set_state ≡ s.set_state
    → All (OnPath s.path_id) l
    → Keeps s t
unfolding Keeps IsValid Agrees
Keeps-of s t l h e e' e'' a = let valid : IsValid t = rw (e, e') (h, a) in (valid, e', e'')

one_end :
    (p : CidInner → Bool) (l : List CidInner) (n : CidInner)
    → count p (l ++ n ∷ []) ≡ count p l + bit (p n)
unfolding count
one_end p l n = omega (arith, count-append p l (n ∷ []))

appended :
    (s : CidSetInner) (node : CidInner)
    → IsValid s
    → is_acked_unused node ≡ false
    → OnPath s.path_id node
    → Keeps s (count_in node.state (record s { cid_list = s.cid_list ++ node ∷ [] }))
unfolding IsValid Agrees
appended s node v a o =
    let more : CidSetInner = record s { cid_list = s.cid_list ++ node ∷ [] } in
    let frame = count_in-frame node.state more in
    Keeps-of s (count_in node.state more) more.cid_list
      (count_in-Agrees node.state more node (λ p. count p s.cid_list) (λ p. count p more.cid_list)
        v.0 refl a (λ p. one_end p s.cid_list node))
      frame.0 frame.1 frame.2 (All-append (OnPath s.path_id) s.cid_list (node ∷ []) v.1 (o, tt))

pub insert_cid-Keeps :
    (c : Cid) (state : CidState) (limit : ℕ) (s : CidSetInner)
    → IsValid s
    → Keeps s (insert_cid c state limit s).1
unfolding insert_cid is_acked_unused OnPath
insert_cid-Keeps c state limit s v =
    let node : CidInner = record {
      cid = record c { path_id = s.path_id };
      state = state;
      retired_ts = max_uint64_value;
      acked = false;
    } in
    let more = appended s node v refl refl in
    elim (Bool-cases (ltb limit ((s.unused_cnt + s.used_cnt) % 2 ^ 64))) [
      | inl t ↦ rw t (Keeps-refl s v)
      | inr t ↦ rw t more
    ]

-- What is left when a node is unlinked.
Unlinked : ℕ → List CidInner → Option (CidInner × List CidInner) → Type 0
Unlinked path_id l none = Unit
Unlinked path_id l (some (node, left)) =
    ((p : CidInner → Bool) → count p l ≡ count p left + bit (p node)) × All (OnPath path_id) left

unlinked :
    (c : Cid) (path_id : ℕ) (l : List CidInner)
    → All (OnPath path_id) l
    → Unlinked path_id l (unlink c l)
unfolding unlink Unlinked count
unlinked c path_id [] a = tt
unlinked c path_id (x ∷ l) a =
    step x l (cid_is_equal c x.cid) (unlink c l) a (unlinked c path_id l a.1)
  where
    step :
        (x : CidInner) (l : List CidInner) (same : Bool) (r : Option (CidInner × List CidInner))
        → All (OnPath path_id) (x ∷ l)
        → Unlinked path_id l r
        → Unlinked path_id (x ∷ l) (
            if same
            then some (x, l)
            else (elim r [ none ↦ none | some (freed, left) ↦ some (freed, x ∷ left) ]))
    step x l true r a u = (λ p. omega arith, a.1)
    step x l false none a u = tt
    step x l false (some (node, left)) a u = (λ p. omega (arith, u.0 p), (a.0, u.1))

settle_delete-Keeps :
    (s : CidSetInner) (r : Option (CidInner × List CidInner))
    → IsValid s
    → Unlinked s.path_id s.cid_list r
    → Keeps s (settle_delete s r).1
unfolding settle_delete IsValid Agrees Unlinked
settle_delete-Keeps s none v u = Keeps-refl s v
settle_delete-Keeps s (some (node, left)) v u =
    let less : CidSetInner = record s { cid_list = left } in
    let frame = count_out-frame node.state node.acked less in
    Keeps-of s (count_out node.state node.acked less) left
      (count_out-Agrees node.state node.acked less node (λ p. count p s.cid_list)
        (λ p. count p left) v.0 refl refl u.0)
      frame.0 frame.1 frame.2 u.1

pub delete_cid-Keeps : (c : Cid) (s : CidSetInner) → IsValid s → Keeps s (delete_cid c s).1
unfolding delete_cid
delete_cid-Keeps c s v =
    settle_delete-Keeps s (unlink c s.cid_list) v
      (unlinked c s.path_id s.cid_list (unfold IsValid in v.1))
