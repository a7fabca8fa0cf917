-- ===== src/Server/Nicknames.antt =====
-- Nicknames: each is well formed, and no two users have names that can be confused.
use cirque.Base.{
  Bool, true, false, Bytes, eq_ignore_ascii_case, eq_ignore_ascii_case_sym, unwrap_or, Option, none,
  some, [], ◌≡◌, ◌≢◌, inl, inr, arith, Option-cases, ok,
}
use cirque.Base.Map.{get, id_eq}
use cirque.Base.Map.Laws.{get-any-values}
use cirque.Types.User.{UserId, RegisteredUser, RegisteringUser}
use native.Mathlib.Decide.{ℕ_discrete}
use cirque.Server.State.{ServerStateInner}
use cirque.Server.Nickname.{
  External, cure_nickname, nickname_is_valid, check_nickname, user_has_same_nick,
  ruser_has_same_nick,
}
use cirque.Server.Valid.{IsValid}

abbrev pub nick_of : Option RegisteredUser → Option RegisteringUser → Option Bytes
nick_of none none = none
nick_of none (some r) = r.nickname
nick_of (some u) r = some u.nickname

-- The nickname that goes by an id, of a registered user or of one that registers.
unfoldable pub nick_at : ServerStateInner → UserId → Option Bytes
nick_at s i = nick_of (get i s.users) (get i s.registering_users)

-- Nobody is on both lists.
pub registering_is_not_registered :
    (s : ServerStateInner)
    → IsValid s
    → (i : UserId) (r : RegisteringUser) → get i s.registering_users ≡ some r
    → get i s.users ≡ none
registering_is_not_registered s v i r e = elim (Option-cases (get i s.users)) [
  | inl h ↦ h
  | inr (u, h) ↦ cc (v.disjoint i u h)
]

module _ (x : External) where
  -- The form in which nicknames are compared.
  abbrev pub skeleton : Bytes → Bytes
  skeleton nick = unwrap_or (cure_nickname x nick) []

  -- Two nicknames that the program takes for the same.
  unfoldable pub confusable : Bytes → Bytes → Bool
  confusable a b = eq_ignore_ascii_case (skeleton a) (skeleton b)

  pub record HasNicknames (s : ServerStateInner) : Type 0 where
    pub unique :
        (i j : UserId) (a b : Bytes)
        → nick_at s i ≡ some a
        → nick_at s j ≡ some b
        → confusable a b ≡ true
        → i ≡ j
    pub well_formed : (i : UserId) (a : Bytes) → nick_at s i ≡ some a → nickname_is_valid x a ≡ true

  -- Fewer nicknames are still unique.
  pub HasNicknames-sub :
      (s t : ServerStateInner)
      → ((i : UserId) (a : Bytes) → nick_at t i ≡ some a → nick_at s i ≡ some a)
      → HasNicknames s
      → HasNicknames t
  HasNicknames-sub s t sub h = record {
    unique = λ i j a b p q. h.unique i j a b (sub i a p) (sub j b q);
    well_formed = λ i a p. h.well_formed i a (sub i a p);
  }

  -- What an accepted nickname is.
  pub check_nickname-valid :
      (s : ServerStateInner) (nick : Bytes) (i : UserId)
      → check_nickname x s nick (some i) ≡ ok tt
      → nickname_is_valid x nick ≡ true
  unfolding check_nickname
  check_nickname-valid s nick i h = ground arith

  -- An accepted nickname cannot be confused with that of anyone else.
  pub check_nickname-confusable :
      (s : ServerStateInner)
      → IsValid s
      → (nick : Bytes) (i j : UserId) (a : Bytes) → check_nickname x s nick (some i) ≡ ok tt
      → j ≢ i
      → nick_at s j ≡ some a
      → confusable a nick ≡ false
  unfolding check_nickname confusable nick_at
  check_nickname-confusable s v nick i j a h ne e = elim (Option-cases (cure_nickname x nick)) [
    | inl c ↦ ground arith
    | inr (cured, c) ↦ elim (Option-cases (get j s.users)) [
      | inr (u, g) ↦ ground (
        arith,
        get-any-values j u (user_has_same_nick x (some i) cured) s.users,
        v.users_keyed j u,
      )
      | inl g ↦ elim (Option-cases (get j s.registering_users)) [
        | inr (r, k) ↦ ground (
          arith,
          get-any-values j r (ruser_has_same_nick x (some i) cured) s.registering_users,
          v.rusers_keyed j r,
        )
        | inl k ↦ ground arith
      ]
    ]
  ]

  pub confusable_sym : (a b : Bytes) → confusable a b ≡ true → confusable b a ≡ true
  unfolding confusable
  confusable_sym a b h = eq_ignore_ascii_case_sym (skeleton a) (skeleton b) h

  -- One id takes an accepted nickname, and the others keep theirs.
  pub HasNicknames-rename :
      (s t : ServerStateInner)
      → IsValid s
      → (i : UserId) (nick : Bytes) → check_nickname x s nick (some i) ≡ ok tt
      → ((a : Bytes) → nick_at t i ≡ some a → a ≡ nick)
      → ((j : UserId) (a : Bytes) → j ≢ i → nick_at t j ≡ some a → nick_at s j ≡ some a)
      → HasNicknames s
      → HasNicknames t
  HasNicknames-rename s t v i nick checked own other h = record {
    unique = λ j k a b p q c. elim (ℕ_discrete j i) [
      | yes e ↦ elim (ℕ_discrete k i) [
        | yes f ↦ ground arith
        | no f ↦ ground (
          arith,
          own a (rw (← e) p),
          other k b f q,
          check_nickname-confusable s v nick i k b checked f,
          confusable_sym a b,
        )
      ]
      | no e ↦ elim (ℕ_discrete k i) [
        | yes f ↦ ground (
          arith,
          own b (rw (← f) q),
          other j a e p,
          check_nickname-confusable s v nick i j a checked e,
        )
        | no f ↦ h.unique j k a b (other j a e p) (other k b f q) c
      ]
    ];
    well_formed = λ j a p. elim (ℕ_discrete j i) [
      | yes e ↦ ground (arith, own a (rw (← e) p), check_nickname-valid s nick i checked)
      | no e ↦ h.well_formed j a (other j a e p)
    ];
  }
