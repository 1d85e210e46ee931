-- ===== src/Chat/Guards.antt =====
-- What holds of a channel through the checks at the start of a command, which change nothing.
use Prim.Native.String.{String}
use athena_wow_cluster.Prelude.{
  ℕ, ◌≡◌, ◌≢◌, refl, Bool, true, false, ◌==◌, Option, put, delete, Bool-cases, Option-cases, inl,
  inr, arith,
}
use athena_wow_cluster.Chat.Model.{ActiveChannel}
use athena_wow_cluster.Chat.Calls.{
  Env, Moment, Local, Error, Result, Action, ok, err, and_then, ◌>>=◌, ◌>>◌, check, write,
  not_member,
}
use athena_wow_cluster.Chat.Channel.{set_password, persist_toggle_announcements}
use athena_wow_cluster.Chat.Queries.{is_member, get_member_flags, find_member_by_name, row_of}
use athena_wow_cluster.Chat.Commands.{check_member, target, ban, unban}

module _ {e : Env} (P : ActiveChannel → Type 0) where
  pub through_check :
      {A : Type 0} (b : Bool) (x : Error) (k : Action (Local e) A) (st : Local e)
      → P st.ch
      → (b ≡ true → P (k st).1.ch)
      → P ((check b x >> k) st).1.ch
  through_check true x k st p q = q refl
  through_check false x k st p q = p

  pub through_target :
      {A : Type 0} (t : Moment) (ch : ActiveChannel) (name : String) (k : ℕ → Action (Local e) A)
      (st : Local e)
      → P st.ch
      → ((g : ℕ) → find_member_by_name t ch name ≡ g → g ≢ 0 → P (k g st).1.ch)
      → P ((target t ch name >>= k) st).1.ch
  unfolding target
  through_target t ch name k st p q = elim (Bool-cases (find_member_by_name t ch name == 0)) [
    | inl z ↦ rw z p
    | inr z ↦ rw z (q (find_member_by_name t ch name) refl (ground arith))
  ]

  pub through_end :
      {A B : Type 0} (r : Result A × Local e) (b : B)
      → P r.1.ch
      → P (and_then r (λ a st. (ok b, st))).1.ch
  through_end (ok a, st) b p = p
  through_end (err x, st) b p = p

  -- The flag that a command asks for, and the player that it names.
  pub through_flags :
      {A : Type 0} (actor : ℕ) (test : ℕ → Bool) (y : Error) (t : Moment) (name : String)
      (k : ℕ → Action (Local e) A) (st : Local e)
      → P st.ch
      → (test (get_member_flags st.ch actor) ≡ true
          → (g : ℕ) → find_member_by_name t st.ch name ≡ g
          → g ≢ 0
          → P (k g st).1.ch)
      → P ((check (test (get_member_flags st.ch actor)) y >> (target t st.ch name >>= k)) st).1.ch
  through_flags actor test y t name k st p q =
      through_check (test (get_member_flags st.ch actor)) y _ st p
        (λ f. through_target t st.ch name k st p (q f))

  pub through_rights :
      {A : Type 0} (actor : ℕ) (test : ℕ → Bool) (y : Error) (t : Moment) (name : String)
      (k : ℕ → Action (Local e) A) (st : Local e)
      → P st.ch
      → (test (get_member_flags st.ch actor) ≡ true
          → (g : ℕ) → find_member_by_name t st.ch name ≡ g
          → g ≢ 0
          → P (k g st).1.ch)
      → P
          ((check_member st.ch actor
              >> (check (test (get_member_flags st.ch actor)) y >> (target t st.ch name >>= k)))
            st).1.ch
  unfolding check_member
  through_rights actor test y t name k st p q =
      through_check (is_member st.ch actor) not_member _ st p
        (λ m. through_flags actor test y t name k st p q)

-- The channel that these leave, whether the database accepts the change or not.
module _ {e : Env} where
  write-ch : (f : e.Db → Option (Unit {0}) × e.Db) (st : Local e) → (write f st).1.ch ≡ st.ch
  write-ch f st = elim (Option-cases (f st.db).0) [ inl n ↦ rw n refl | inr (u, o) ↦ rw o refl ]

  pub ban-ch :
      (realm guid until : ℕ) (st : Local e)
      → (ban realm guid until st).1.ch
        ≡ record st.ch { banned_until = put st.ch.banned_until guid until }
  unfolding ban
  ban-ch realm guid until st =
      write-ch
        (λ d.
          e.add_ban d realm
            (record { channel_id = st.ch.channel_id; player_guid = guid; ban_time = until }))
        (record st { ch = record st.ch { banned_until = put st.ch.banned_until guid until } })

  pub unban-ch :
      (realm guid : ℕ) (st : Local e)
      → (unban realm guid st).1.ch ≡ record st.ch { banned_until = delete st.ch.banned_until guid }
  unfolding unban
  unban-ch realm guid st =
      write-ch (λ d. e.remove_ban d realm st.ch.channel_id guid)
        (record st { ch = record st.ch { banned_until = delete st.ch.banned_until guid } })

  pub set_password-ch :
      (realm : ℕ) (password : String) (st : Local e)
      → (set_password realm password st).1.ch ≡ record st.ch { password = password }
  unfolding set_password row_of
  set_password-ch realm password st =
      write-ch (λ d. e.update_channel d realm (row_of (record st.ch { password = password })))
        (record st { ch = record st.ch { password = password } })

  pub persist_toggle_announcements-ch :
      (realm : ℕ) (st : Local e) → (persist_toggle_announcements realm st).1.ch ≡ st.ch
  unfolding persist_toggle_announcements
  persist_toggle_announcements-ch realm st =
      write-ch (λ d. e.update_channel d realm (row_of st.ch)) st
