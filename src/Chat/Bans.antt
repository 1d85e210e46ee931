-- ===== src/Chat/Bans.antt =====
-- apps/chatserver/service/channel-manager.go: a ban keeps its player out of the channel.
use athena_wow_cluster.Prelude.{
  ℕ, ◌≡◌, ◌∙◌, true, false, some, List, [], ◌∷◌, ltb, ◌==◌, if◌then◌else◌, inl, inr, Bool-cases,
  arith,
}
use athena_wow_cluster.Chat.Calls.{Env, Moment, Local}
use athena_wow_cluster.Chat.Queries.{is_member}
use athena_wow_cluster.Chat.Commands.{ban}
use athena_wow_cluster.Chat.Ownership.{IsHistory}
use athena_wow_cluster.Chat.Owners.{WellFormed}
use athena_wow_cluster.Chat.History.{
  Spec, view, Step, unchanged, entered, departed, kicked, banned, unbanned, pruned, Run, done,
  ◌then◌, MayEnter, Command, exec_all,
}
use athena_wow_cluster.Chat.Refinement.{exec_all-Run}

-- All calls come before a time.
abbrev pub AllBefore : ℕ → List (Moment × Command) → Type 0
AllBefore until [] = Unit
AllBefore until ((t, c) ∷ cs) = (ltb t.now until ≡ true) × AllBefore until cs

abbrev KeptOut : ℕ → ℕ → Spec → Type 0
KeptOut guid until s = (s.roster guid ≡ false) × (s.banned_until guid ≡ some until)

barred :
    (t : Moment) (s : Spec) (g until : ℕ)
    → MayEnter t s g
    → s.banned_until g ≡ some until
    → ltb t.now until ≡ true
    → ⊥
barred t s g until (inl n) ban before = absurd (ground arith)
barred t s g until (inr (u, f, over)) ban before = absurd (ground arith)

Step-keeps_out :
    {t : Moment} {c : Command} {s s' : Spec} (guid until : ℕ)
    → Step t c s s'
    → ltb t.now until ≡ true
    → KeptOut guid until s
    → KeptOut guid until s'
Step-keeps_out guid until (unchanged r b) before (out, ban) = (r guid ∙ out, b guid ∙ ban)
Step-keeps_out {t} {s = s} guid until (entered {guid = g} new may r b) before (out, ban) =
    elim (Bool-cases (g == guid)) [
      | inl q ↦ absurd (barred t s g until may (ground arith) before)
      | inr q ↦ (ground (arith, r guid), b guid ∙ ban)
    ]
Step-keeps_out guid until (departed (was, r) b) before (out, ban) =
    (ground (arith, r guid), b guid ∙ ban)
Step-keeps_out guid until (kicked g acts (was, r) b) before (out, ban) =
    (ground (arith, r guid), b guid ∙ ban)
Step-keeps_out guid until (banned g acts was (inl (x, r)) b) before (out, ban) =
    (ground (arith, r guid), ground (arith, b guid))
Step-keeps_out guid until (banned g acts was (inr r) b) before (out, ban) =
    (r guid ∙ out, ground (arith, b guid))
Step-keeps_out guid until (unbanned g acts was r b) before (out, ban) =
    (r guid ∙ out, ground (arith, b guid))
Step-keeps_out guid until (pruned r b) before (out, ban) = (ground (arith, r guid), b guid ∙ ban)

Run-keeps_out :
    {cs : List (Moment × Command)} {s s' : Spec} (guid until : ℕ)
    → Run cs s s'
    → AllBefore until cs
    → KeptOut guid until s
    → KeptOut guid until s'
Run-keeps_out guid until done before k = k
Run-keeps_out guid until (step then rest) (now, later) k =
    Run-keeps_out guid until rest later (Step-keeps_out guid until step now k)

-- A player who is banned and out of the channel stays out until the ban ends, and stays banned: no
-- command, `UnbanPlayerByName` included, brings the player back.
pub banned_stays_out :
    {e : Env} (realm guid until : ℕ) (cs : List (Moment × Command)) (st : Local e)
    → IsHistory cs
    → WellFormed st.ch
    → AllBefore until cs
    → is_member st.ch guid ≡ false
    → st.ch.banned_until guid ≡ some until
    → let after = (exec_all realm cs st).ch in
      (is_member after guid ≡ false) × (after.banned_until guid ≡ some until)
unfolding view
banned_stays_out realm guid until cs st h wf before out ban =
    Run-keeps_out guid until (exec_all-Run realm cs st h wf) before (out, ban)
