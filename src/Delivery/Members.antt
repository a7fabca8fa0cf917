-- ===== src/Delivery/Members.antt =====
-- The delivery of one message to many users, each of whom holds its own mailbox
-- (`send_to_each` of cirque-core/src/server_state.rs).
use mathlib.Core.Path.{sym, subst}
use cirque.Base.{
  true, false, ◌==◌, if◌then◌else◌, some, List, [], ◌∷◌, ◌≡◌, refl, ap, ◌∙◌, inl, inr, arith,
  Option-cases, Bool-cases,
}
use cirque.Base.Map.{HashMap, get, keys, id_eq, channel_id_eq}
use cirque.Base.Map.Laws.{Distinct}
use cirque.Types.User.{UserId, RegisteredUser}
use cirque.ServerToClient.{Message}
use cirque.Server.State.{MessageContext}
use cirque.Server.Broadcast.{send_to_each, others}
use cirque.Server.Recipients.{listed, listed-keys, listed-others}
use cirque.Delivery.{Mailboxes, ingest, deliver, deliver_one}

-- Every id at most once.
abbrev pub Unique : List UserId → Type 0
Unique [] = Unit
Unique (i ∷ ids) = (listed i ids ≡ false) × Unique ids

pub Unique-keys {ℓ} : {V : Type ℓ} (m : HashMap UserId V) → Distinct m → Unique (keys m)
unfolding keys
Unique-keys [] d = tt
Unique-keys ((i, v) ∷ m) d = (ground (arith, listed-keys i m), Unique-keys m d.1)

pub Unique-others : (i : UserId) (ids : List UserId) → Unique ids → Unique (others i ids)
unfolding others
Unique-others i [] u = tt
Unique-others i (j ∷ ids) u = ground (arith, Unique-others i ids u.1, listed-others i j ids)

deliver_one-at :
    (context : MessageContext) (u : RegisteredUser) (m : Message) (boxes : Mailboxes) (j : UserId)
    → deliver_one context (record { to = u.mailbox; message = m }) boxes j
      ≡ (if j == u.mailbox then ingest context m (boxes j) else boxes j)
unfolding deliver_one
deliver_one-at context u m boxes j = refl

module _ (users : HashMap UserId RegisteredUser)
    (own : (i : UserId) (u : RegisteredUser) → get i users ≡ some u → u.mailbox ≡ i)
    (context : MessageContext) (m : Message) where
  pub deliver_each-others :
      (ids : List UserId) (boxes : Mailboxes) (j : UserId)
      → listed j ids ≡ false
      → deliver context (send_to_each users m ids) boxes j ≡ boxes j
  unfolding send_to_each deliver
  deliver_each-others [] boxes j h = refl
  deliver_each-others (i ∷ ids) boxes j h = elim (Option-cases (get i users)) [
    | inl e ↦ rw (e, send_to_each) (deliver_each-others ids boxes j (ground arith))
    | inr (u, e) ↦
        rw (e, send_to_each)
          (deliver_each-others ids _ j (ground arith)
            ∙ deliver_one-at context u m boxes j
            ∙ ground (arith, own i u e))
  ]

  pub deliver_each-listed :
      (ids : List UserId) (boxes : Mailboxes) (j : UserId) (w : RegisteredUser)
      → Unique ids
      → listed j ids ≡ true
      → get j users ≡ some w
      → deliver context (send_to_each users m ids) boxes j ≡ ingest context m (boxes j)
  unfolding send_to_each deliver
  deliver_each-listed [] boxes j w q h e = cc
  deliver_each-listed (i ∷ ids) boxes j w q h e = elim (Bool-cases (i == j)) [
    | inl same ↦
        let here : i ≡ j = ground arith in
        let found : get i users ≡ some w = subst (λ k. get k users ≡ some w) (sym here) e in
        rw (found, send_to_each)
          (deliver_each-others ids _ j (subst (λ k. listed k ids ≡ false) here q.0)
            ∙ deliver_one-at context w m boxes j
            ∙ ground (arith, own j w e))
    | inr other ↦ elim (Option-cases (get i users)) [
      | inl k ↦ rw (k, send_to_each) (deliver_each-listed ids boxes j w q.1 (ground arith) e)
      | inr (u, k) ↦
          rw (k, send_to_each)
            (deliver_each-listed ids _ j w q.1 (ground arith) e
              ∙ ap (ingest context m)
                  (deliver_one-at context u m boxes j ∙ ground (arith, own i u k)))
    ]
  ]
