-- ===== src/Accounting/Supply.antt =====
-- Lines of commands, each with an answer of the uuid generator.
use myteams.Prelude.{
  List, ℕ, ◌+◌, ◌≤◌, ◌<◌, ◌≡◌, ◌≢◌, [], ◌∷◌, none, some, Option, arith, Text, empty, inl, inr,
  Option-cases, Bool-cases,
}
use myteams.Database.{find_user}
use myteams.State.{Env, Client, Clients, Server, find_client, update_client, set_args, on_client}
use myteams.Protocol.Arguments.{parse_args}
use myteams.Commands.Handling.{Command, find_command, execute, run_command, handle_command}
use myteams.Loop.{handle_line, strip_return}
use myteams.Accounting.Invariant.{IsAccounted, set_args-Accounts}
use myteams.Accounting.Commands.{execute-IsAccounted}
use myteams.Accounting.Fresh.{Absent, execute-Absent}

-- What `uuid_generate` promises from its `n`th answer on: uuids that are not empty, that no user
-- has, and that do not come twice.
pub record Supplies (envs : ℕ → Env) (n : ℕ) (s : Server) : Type 0 where
  pub named : (m : ℕ) → n ≤ m → (envs m).uuid ≢ []
  pub unused : (m : ℕ) → n ≤ m → Absent (envs m).uuid s
  pub distinct : (m k : ℕ) → n ≤ m → m < k → (envs k).uuid ≢ (envs m).uuid

pub find_client-update_client :
    (fd : ℕ) (f : Client → Client) (cs : Clients) (c : Client)
    → find_client fd cs ≡ some c
    → find_client fd (update_client fd f cs) ≡ some (f c)
unfolding find_client update_client
find_client-update_client fd f [] c h = ground arith
find_client-update_client fd f ((k, d) ∷ cs) c h =
    ground (arith, find_client-update_client fd f cs c)

-- One command takes one answer of the generator.
abbrev pub Kept : (ℕ → Env) → ℕ → Server → Type 0
Kept envs n s = IsAccounted s × Supplies envs n s

Supplies-suc :
    (envs : ℕ → Env) (n : ℕ) (s s' : Server)
    → ((v : Text) → v ≢ (envs n).uuid → Absent v s → Absent v s')
    → Supplies envs n s
    → Supplies envs (n + 1) s'
Supplies-suc envs n s s' absent h = record {
  named = λ m le. h.named m (omega arith);
  unused = λ m le.
      absent (envs m).uuid (h.distinct n m (omega arith) (omega arith)) (h.unused m (omega arith));
  distinct = λ m k le lt. h.distinct m k (omega arith) lt;
}

execute-Kept :
    (cmd : Command) (envs : ℕ → Env) (n fd : ℕ) (c : Client) (s : Server)
    → find_client fd s.clients ≡ some c
    → Kept envs n s
    → Kept envs (n + 1) (execute cmd (envs n) fd c s)
execute-Kept cmd envs n fd c s here (inv, h) = (
  execute-IsAccounted cmd (envs n) fd c s here
      (record {
        not_empty = h.named n (omega arith);
        new_user = unfold find_user in h.unused n (omega arith);
      })
      inv,
  Supplies-suc envs n s _ (λ v ne. execute-Absent v cmd (envs n) fd c s inv.distinct ne) h,
)

set_args-Supplies :
    (envs : ℕ → Env) (n fd : ℕ) (args : List Text) (s : Server)
    → Supplies envs n s
    → Supplies envs n (set_args args fd s)
unfolding set_args on_client
set_args-Supplies envs n fd args s h = record {
  named = h.named;
  unused = h.unused;
  distinct = h.distinct;
}

Supplies-later : (envs : ℕ → Env) (n : ℕ) (s : Server) → Supplies envs n s → Supplies envs (n + 1) s
Supplies-later envs n s = Supplies-suc envs n s s (λ v _ a. a)

find_client-set_args :
    (fd : ℕ) (args : List Text) (s : Server) (c : Client)
    → find_client fd s.clients ≡ some c
    → find_client fd (set_args args fd s).clients ≡ some (record c { args = args })
unfolding set_args on_client
find_client-set_args fd args s c =
    find_client-update_client fd (λ d. record d { args = args }) s.clients c

run_command-Kept :
    (envs : ℕ → Env) (n : ℕ) (args : List Text) (fd : ℕ) (s : Server)
    → Kept envs n s
    → Kept envs (n + 1) (run_command (envs n) args fd s)
unfolding run_command
run_command-Kept envs n [] fd s (inv, h) = (inv, Supplies-later envs n s h)
run_command-Kept envs n (name ∷ args) fd s (inv, h) =
    elim (Option-cases (find_client fd s.clients)) [
      | inl e ↦ rw (e, run_command) (inv, Supplies-later envs n s h)
      | inr (c, e) ↦
          let there = find_client-set_args fd (name ∷ args) s c e in
          let inv' = set_args-Accounts (name ∷ args) fd s inv in
          let h' = set_args-Supplies envs n fd (name ∷ args) s h in
          elim (Option-cases (find_command name)) [
            | inl f ↦ rw (e, f, run_command) (inv', Supplies-later envs n _ h')
            | inr (cmd, f) ↦
                rw (e, f, run_command) (execute-Kept cmd envs n fd _ _ there (inv', h'))
          ]
    ]

-- A property of the server that a step leaves, where the step has a defined result.
abbrev pub Ensures {ℓ} : {A : Type 0} → (A → Type ℓ) → Option A → Type ℓ
Ensures P none = Unit
Ensures P (some a) = P a

pub Ensures-eq {ℓ} :
    {A : Type 0} (P : A → Type ℓ) (o : Option A) {a : A} → o ≡ some a → Ensures P o → P a
Ensures-eq P o e h = rw e at h

handle_command-Kept :
    (envs : ℕ → Env) (n : ℕ) (raw : Text) (fd : ℕ) (s : Server)
    → Kept envs n s
    → Ensures (Kept envs (n + 1)) (handle_command (envs n) raw fd s)
handle_command-Kept envs n raw fd s k = elim (Option-cases (parse_args raw)) [
  | inl e ↦ unfold handle_command in rw (e, handle_command) tt
  | inr (args, e) ↦
      unfold handle_command in rw (e, handle_command) (run_command-Kept envs n args fd s k)
]

pub handle_line-Kept :
    (envs : ℕ → Env) (n : ℕ) (line : Text) (fd : ℕ) (s : Server)
    → Kept envs n s
    → Ensures (Kept envs (n + 1)) (handle_line (envs n) line fd s)
handle_line-Kept envs n line fd s (inv, h) = elim (Bool-cases (empty (strip_return line))) [
  | inl e ↦ unfold handle_line in rw (e, handle_line) (inv, Supplies-later envs n s h)
  | inr e ↦ unfold handle_line in rw (e, handle_line) (handle_command-Kept envs n _ fd s (inv, h))
]
