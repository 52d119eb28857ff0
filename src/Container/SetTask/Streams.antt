-- ===== src/Container/SetTask/Streams.antt =====
-- The stream blocks of Container::set_task.
use libsbox.Base.{
  ℕ, ◌+◌, ◌≤◌, ◌<◌, ◌≡◌, ◌≢◌, inl, inr, refl, ℤ, pos, minus_one, false, List, [], ◌∷◌, length,
  text_eq, text_eq_iff, arith, ltb, ltb→lt, ◌==◌, ==_iff, Bool-cases,
}
use libsbox.Crash.{Runs, returns, dies, bind-Runs}
use libsbox.PlainString
use libsbox.PlainString.{PlainString}
use libsbox.PlainString.Assign
use libsbox.Pipes.{Pipes}
use libsbox.Pipes.Laws.{Extends, Extends-refl, get_pipe-Gives, get_pipe-supply}
use libsbox.Container.TaskData.{IoStream, path_max}
use libsbox.Container.SetTask.{
  Reason, Run, no_pipe, dev_null, stdout_name, reading_end, writing_end, open_end, open_stdin,
  open_stdout, open_stderr, connect, set_stream,
}
use libsbox.Container.SetTask.Spec.{Opens, OpensStderr, Connected}

-- At most one pipe is taken from the kernel.
abbrev pub Spends : Pipes → Pipes → Type 0
Spends p q = length p.supply ≤ length q.supply + 1

-- A name is opened: the descriptor is what `O` says of it, and the pipes of before are still there.
abbrev pub Opened : (Pipes → List ℕ → ℤ → Type 0) → Pipes → List ℕ → ℤ × Pipes → Type 0
Opened O p name r = O r.1 name r.0 × Extends p r.1 × Spends p r.1

open_end_lem :
    (E : Reason → Type 0) (end : ℕ × ℕ → ℕ) (p : Pipes) (name : List ℕ)
    → (p.supply ≡ [] → E no_pipe)
    → Runs E (Opened (Opens end) p name) (open_end end p name)
unfolding open_end
open_end_lem E end p name x = elim (get_pipe-Gives p name) [
  | inl (fds, p', r, f, ext) ↦
      returns (pos (end fds), p') (rw (r, open_end) refl)
        ((fds, f, refl), ext, get_pipe-supply p name fds p' r)
  | inr (fresh, empty, r) ↦ dies no_pipe (rw (r, open_end) refl) (x empty)
]

-- The stream is connected, its name is well formed, and the pipes of before are still there.
abbrev pub StreamSet : (Pipes → List ℕ → ℤ → Type 0) → Pipes → List ℕ → IoStream × Pipes → Type 0
StreamSet O p name r =
    Connected O r.1 name r.0
    × PlainString.IsValid path_max r.0.filename
    × Extends p r.1
    × Spends p r.1

connect_lem :
    (E : Reason → Type 0) (O : Pipes → List ℕ → ℤ → Type 0) (too_long : Reason)
    (open_pipe : Pipes → List ℕ → Run (ℤ × Pipes)) (p : Pipes) (cleared : PlainString)
    (name : List ℕ)
    → ((rest : List ℕ) → Runs E (Opened O p rest) (open_pipe p rest))
    → (path_max < length name → E too_long)
    → PlainString.IsValid path_max cleared
    → PlainString.to_list cleared ≡ []
    → Runs E (StreamSet O p name) (connect too_long open_pipe p cleared name)
unfolding connect
connect_lem E O too_long open_pipe p cleared [] opens long v empty =
    let (s, r, valid, text) =
      Assign.assign_ptr_ok path_max cleared dev_null v (omega arith) (omega arith) in
    returns (record { fd = minus_one; filename = s }, p) (rw r refl)
      ((refl, text), valid, Extends-refl p, omega arith)
connect_lem E O too_long open_pipe p cleared (c ∷ rest) opens long v empty =
    elim (Bool-cases (c == b'@')) [
      | inl e ↦ rw e (
          bind-Runs (open_pipe p rest) _ (opens rest) (λ r h.
            returns (record { fd = r.0; filename = cleared }, r.1) refl
              (inl ((==_iff c b'@').0 e, h.0, empty), v, h.1, h.2)))
      | inr e ↦ elim (Bool-cases (ltb path_max (length (c ∷ rest)))) [
        | inl over ↦ rw (e, over) (dies too_long refl (long (ltb→lt _ _ over)))
        | inr fits ↦
            let (s, r, valid, text) =
              Assign.assign_ok path_max cleared (c ∷ rest) v (ground arith) in
            rw (e, fits, r)
              (returns (record { fd = minus_one; filename = s }, p) refl
                (inr (ground arith, refl, text), valid, Extends-refl p, omega arith))
      ]
    ]

pub set_stream_lem :
    (E : Reason → Type 0) (O : Pipes → List ℕ → ℤ → Type 0) (too_long : Reason)
    (open_pipe : Pipes → List ℕ → Run (ℤ × Pipes)) (p : Pipes) (desc : IoStream) (name : List ℕ)
    → ((rest : List ℕ) → Runs E (Opened O p rest) (open_pipe p rest))
    → (path_max < length name → E too_long)
    → PlainString.IsValid path_max desc.filename
    → Runs E (StreamSet O p name) (set_stream too_long open_pipe p desc name)
unfolding set_stream
set_stream_lem E O too_long open_pipe p desc name opens long v =
    let (s, r, valid, empty) = Assign.assign_ptr_ok path_max desc.filename [] v tt (omega arith) in
    rw r (connect_lem E O too_long open_pipe p s name opens long valid empty)

pub open_stdin_lem :
    (E : Reason → Type 0) (p : Pipes) (name : List ℕ)
    → (p.supply ≡ [] → E no_pipe)
    → Runs E (Opened (Opens reading_end) p name) (open_stdin p name)
unfolding open_stdin
open_stdin_lem E p name x = open_end_lem E reading_end p name x

pub open_stdout_lem :
    (E : Reason → Type 0) (p : Pipes) (name : List ℕ)
    → (p.supply ≡ [] → E no_pipe)
    → Runs E (Opened (Opens writing_end) p name) (open_stdout p name)
unfolding open_stdout
open_stdout_lem E p name x = open_end_lem E writing_end p name x

pub open_stderr_lem :
    (E : Reason → Type 0) (p : Pipes) (name : List ℕ)
    → (p.supply ≡ [] → E no_pipe)
    → Runs E (Opened OpensStderr p name) (open_stderr p name)
unfolding open_stderr
open_stderr_lem E p name x = elim (Bool-cases (text_eq name stdout_name)) [
  | inl e ↦
      returns (pos 1, p) (rw e refl)
        (inl ((text_eq_iff name stdout_name).0 e, refl), Extends-refl p, omega arith)
  | inr e ↦ rw e (elim (open_end_lem E writing_end p name x) [
    | returns r ran h ↦ returns r ran (inr (differs e, h.0), h.1, h.2)
    | dies why ran y ↦ dies why ran y
  ])
]
  where
    differs : text_eq name stdout_name ≡ false → name ≢ stdout_name
    differs e same = let t = (text_eq_iff name stdout_name).1 same in cc
