-- ===== src/Stream/Create/Steps.antt =====
-- The creation and the end of other streams leave a closed one closed.
use rquic.Base.{
  ℕ, ◌+◌, ◌-◌, ◌*◌, ◌/◌, ◌%◌, ◌≤◌, ◌<◌, ◌≡◌, ◌≢◌, refl, sym, ap, ◌∙◌, arith, Bool, true, false,
  ◌&&◌, not, leb, if◌then◌else◌, Bool-cases, inl, inr, ne→==, ℕ_discrete, leb→le, lt→leb,
}
use rquic.Stream.{conn_error}
use rquic.Stream.Create.{
  Registry, stream_is_bidi, with_id, create_flow_ctl, insert_passive, enter_id, destroy_stream,
  create_stream_with_conn, passive_create_stream, internal_error,
}
use rquic.Stream.Create.Gone.{
  IsUsed, IsGone, create_flow_ctl-IsGone, conn_error-IsGone, insert_passive-IsGone,
  insert_passive-next, apart, other_kind, raised_bidi, raised_uni,
}

-- The state after an operation, and on both branches of a test
pub Leaves : ℕ → Bool × Registry → Type 0
Leaves id after = IsGone id after.1

pub leaves : (id : ℕ) (b : Bool) (reg : Registry) → IsGone id reg → Leaves id (b, reg)
unfolding Leaves
leaves id b reg g = g

pub branch :
    (id : ℕ) (b : Bool) (x y : Bool × Registry)
    → (b ≡ true → Leaves id x)
    → (b ≡ false → Leaves id y)
    → Leaves id (if b then x else y)
branch id true x y k l = k refl
branch id false x y k l = l refl

both : (a b : Bool) → (a && b) ≡ true → (a ≡ true) × (b ≡ true)
both true b e = (refl, e)
both false b e = absurd (cc e)

used_bidi :
    (id : ℕ) (reg : Registry)
    → stream_is_bidi id ≡ true
    → IsUsed id reg
    → id / 4 < reg.next_bidi_remote
unfolding IsUsed
used_bidi id reg e u = ground (arith, u, e)

used_uni :
    (id : ℕ) (reg : Registry)
    → stream_is_bidi id ≡ false
    → IsUsed id reg
    → id / 4 < reg.next_uni_remote
unfolding IsUsed
used_uni id reg e u = ground (arith, u, e)

-- The ids that are entered with a new bidirectional or unidirectional one are not the one that is used.
bidi_apart :
    (id other s : ℕ) (reg : Registry)
    → stream_is_bidi other ≡ true
    → IsUsed id reg
    → reg.next_bidi_remote ≤ s
    → id ≢ 4 * s + other % 4
bidi_apart id other s reg o u le = elim (Bool-cases (stream_is_bidi id)) [
  | inl e ↦ apart id other reg.next_bidi_remote s (used_bidi id reg e u) le
  | inr e ↦ other_kind id other s (λ h. cc (e, o, h))
]

uni_apart :
    (id other s : ℕ) (reg : Registry)
    → stream_is_bidi other ≡ false
    → IsUsed id reg
    → reg.next_uni_remote ≤ s
    → id ≢ 4 * s + other % 4
uni_apart id other s reg o u le = elim (Bool-cases (stream_is_bidi id)) [
  | inl e ↦ other_kind id other s (λ h. cc (e, o, h))
  | inr e ↦ apart id other reg.next_uni_remote s (used_uni id reg e u) le
]

not-true : (b : Bool) → not b ≡ true → b ≡ false
not-true true e = absurd (cc e)
not-true false e = refl

not-false : (b : Bool) → b ≡ false → not b ≡ false → ⊥
not-false true e f = cc e
not-false false e f = cc f

bidi_branch :
    (id other : ℕ) (reg : Registry)
    → IsGone id reg
    → (stream_is_bidi other && leb reg.next_bidi_remote (other / 4)) ≡ true
    → Leaves id (
      true,
      record (insert_passive
          (other / 4 + 1 - reg.next_bidi_remote)
          reg.next_bidi_remote
          (other % 4)
          reg) { next_bidi_remote = other / 4 + 1 },
    )
unfolding Leaves
bidi_branch id other reg g e =
    let h = both _ _ e in
    let le = leb→le reg.next_bidi_remote (other / 4) h.1 in
    let count : ℕ = other / 4 + 1 - reg.next_bidi_remote in
    let n = insert_passive-next count reg.next_bidi_remote (other % 4) reg in
    raised_bidi id (other / 4) (insert_passive count reg.next_bidi_remote (other % 4) reg)
      (omega (arith, n.0, le))
      (insert_passive-IsGone count reg.next_bidi_remote (other % 4) id reg
        (λ s u. bidi_apart id other s reg h.0 g.used u) g)

uni_branch :
    (id other : ℕ) (reg : Registry)
    → IsGone id reg
    → (not (stream_is_bidi other) && leb reg.next_uni_remote (other / 4)) ≡ true
    → Leaves id (
      true,
      record (insert_passive
          (other / 4 + 1 - reg.next_uni_remote)
          reg.next_uni_remote
          (other % 4)
          reg) { next_uni_remote = other / 4 + 1 },
    )
unfolding Leaves
uni_branch id other reg g e =
    let h = both _ _ e in
    let le = leb→le reg.next_uni_remote (other / 4) h.1 in
    let count : ℕ = other / 4 + 1 - reg.next_uni_remote in
    let n = insert_passive-next count reg.next_uni_remote (other % 4) reg in
    raised_uni id (other / 4) (insert_passive count reg.next_uni_remote (other % 4) reg)
      (omega (arith, n.1, le))
      (insert_passive-IsGone count reg.next_uni_remote (other % 4) id reg
        (λ s u. uni_apart id other s reg (not-true _ h.0) g.used u) g)

enter_id-Leaves : (id other : ℕ) (reg : Registry) → IsGone id reg → Leaves id (enter_id reg other)
unfolding enter_id
enter_id-Leaves id other reg g =
    branch id (stream_is_bidi other && leb reg.next_bidi_remote (other / 4)) _ _
      (bidi_branch id other reg g)
      (λ e.
        branch id (not (stream_is_bidi other) && leb reg.next_uni_remote (other / 4)) _ _
          (uni_branch id other reg g) (λ f. leaves id (reg.passive_streams_hash other) reg g))

-- The id itself is refused.
pub enter_id-gone : (id : ℕ) (reg : Registry) → IsGone id reg → enter_id reg id ≡ (false, reg)
unfolding enter_id
enter_id-gone id reg g = elim (Bool-cases (stream_is_bidi id)) [
  | inl e ↦ let u = used_bidi id reg e g.used in rw (e, lt→leb _ _ u, g.forgotten) refl
  | inr e ↦ let u = used_uni id reg e g.used in rw (e, lt→leb _ _ u, g.forgotten) refl
]

pub destroy_stream-IsGone :
    (id other : ℕ) (reg : Registry) → IsGone id reg → IsGone id (destroy_stream reg other)
unfolding destroy_stream with_id IsUsed
destroy_stream-IsGone id other reg g = record {
  closed = ground (arith, g.closed);
  forgotten = ground (arith, g.forgotten);
  used = g.used;
}

opened :
    (id other : ℕ) (reg : Registry)
    → id ≢ other
    → IsGone id reg
    → Leaves id (true, record reg { streams_hash = with_id other true reg.streams_hash })
unfolding Leaves with_id IsUsed
opened id other reg n g = record {
  closed = rw (ne→== id other n) g.closed;
  forgotten = g.forgotten;
  used = g.used;
}

checked-Leaves :
    (id other : ℕ) (reg : Registry) → IsGone id reg → Leaves id (create_flow_ctl reg other)
unfolding Leaves
checked-Leaves id other reg g = create_flow_ctl-IsGone id reg other g

create_stream-Leaves :
    (id other : ℕ) (reg : Registry)
    → id ≢ other
    → IsGone id reg
    → Leaves id (create_stream_with_conn reg other)
unfolding create_stream_with_conn
create_stream-Leaves id other reg n g =
    let checked = create_flow_ctl reg other in
    let c : IsGone id checked.1 = create_flow_ctl-IsGone id reg other g in
    branch id (not reg.can_create) _ _ (λ e. leaves id false reg g)
      (λ e.
        branch id (not checked.0) _ _ (λ f. checked-Leaves id other reg g)
          (λ f.
            branch id (checked.1.streams_hash other) _ _
              (λ u.
                leaves id false (destroy_stream checked.1 other)
                  (destroy_stream-IsGone id other checked.1 c))
              (λ u. opened id other checked.1 n c)))

pub of_Leaves : (id : ℕ) (after : Bool × Registry) → Leaves id after → IsGone id after.1
unfolding Leaves
of_Leaves id after g = g

pub passive_create-Leaves :
    (id other : ℕ) (reg : Registry) → IsGone id reg → Leaves id (passive_create_stream reg other)
unfolding passive_create_stream
passive_create-Leaves id other reg g =
    let checked = create_flow_ctl reg other in
    let entered = enter_id checked.1 other in
    let created = create_stream_with_conn entered.1 other in
    let c : IsGone id checked.1 = create_flow_ctl-IsGone id reg other g in
    let e = enter_id-Leaves id other checked.1 c in
    branch id (not checked.0) _ _ (λ h. checked-Leaves id other reg g)
      (λ h. branch id (not entered.0) _ _ (λ k. e) (λ k. after_entry id other checked.1 c k))
  where
    after_entry :
        (id other : ℕ) (reg : Registry)
        → IsGone id reg
        → not (enter_id reg other).0 ≡ false
        → Leaves id (
            if (create_stream_with_conn (enter_id reg other).1 other).0
            then create_stream_with_conn (enter_id reg other).1 other
            else (
              false,
              record (create_stream_with_conn (enter_id reg other).1 other).1 {
                conn =
                    conn_error internal_error
                      (create_stream_with_conn (enter_id reg other).1 other).1.conn;
              },
            ))
    after_entry id other reg g k = elim (ℕ_discrete id other) [
      | yes same ↦
          let e =
            ap (λ (o : ℕ). (enter_id reg o).0) (sym same)
            ∙ ap (λ (r : Bool × Registry). r.0) (enter_id-gone id reg g) in
          absurd (not-false _ e k)
      | no other_id ↦
          let l =
            create_stream-Leaves id other (enter_id reg other).1 other_id
              (of_Leaves id (enter_id reg other) (enter_id-Leaves id other reg g)) in
          branch id (create_stream_with_conn (enter_id reg other).1 other).0 _ _ (λ e. l)
            (λ e. leaves id false _ (
              conn_error-IsGone id (create_stream_with_conn (enter_id reg other).1 other).1 _
                (of_Leaves id _ l)))
    ]
