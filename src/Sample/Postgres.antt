-- ===== src/Sample/Postgres.antt =====
-- A concrete server, at which the theorems on PostgreSQL are applied: it keeps the names of the statements that
-- it has run, those of a transaction block apart until its end, and answers each with one row of ones.
use metadata_manager.Prelude.{
  ℕ, ◌+◌, String, Bool, true, false, Option, none, some, List, [], ◌∷◌, ◌++◌, ◌==◌, ◌||◌, ◌≡◌, refl,
  str_eq, if◌then◌else◌, arith,
}
use metadata_manager.Libpq.{
  Libpq, Status, command_ok, tuples_ok, failure, opens, is_quiet, search_path,
}

pub record SampleServer : Type 0 where
  pub is_broken : ℕ → Bool
  pub in_block : ℕ → Bool
  pub pending : List String
  pub done : List String
  pub next : ℕ

abbrev pub SampleResult : Type 0
SampleResult = Status × Option String

abbrev pub blocked : ℕ → Bool → SampleServer → SampleServer
blocked h b s = record s { in_block = λ g. if g == h then b else s.in_block g }

unfoldable pub run : ℕ → String → SampleServer → SampleResult × SampleServer
run h name s =
    if s.is_broken h
    then ((failure, none), s)
    else if s.in_block h
    then ((tuples_ok, some "1"), record s { pending = name ∷ s.pending })
    else ((tuples_ok, some "1"), record s { done = name ∷ s.done })

unfoldable pub exec : ℕ → String → SampleServer → SampleResult × SampleServer
exec h text s =
    if s.is_broken h
    then ((failure, none), s)
    else if str_eq text "BEGIN"
    then ((command_ok, none), blocked h true s)
    else if str_eq text search_path
    then ((tuples_ok, some ""), s)
    else if str_eq text "ROLLBACK"
    then ((command_ok, none), record (blocked h false s) { pending = [] })
    else if str_eq text "COMMIT"
    then (
      (command_ok, none),
      record (blocked h false s) { pending = []; done = s.pending ++ s.done },
    )
    else ((failure, none), s)

abbrev pub guarded : ℕ → SampleServer → Bool
guarded h s = s.is_broken h || s.in_block h

abbrev pub opened : ℕ → SampleServer → Bool
opened h s = if s.is_broken h then false else true

pub exec-opened :
    (h g : ℕ) (text : String) (s : SampleServer)
    → opened h s ≡ false
    → opened h (exec g text s).1 ≡ false
unfolding exec
exec-opened h g text s e = ground arith

pub opened-guarded : (h : ℕ) (s : SampleServer) → opened h s ≡ false → guarded h s ≡ true
opened-guarded h s e = ground arith

pub exec-done :
    (g : ℕ) (text : String) (s : SampleServer)
    → is_quiet text ≡ true
    → (exec g text s).1.done ≡ s.done
unfolding exec
exec-done g text s e = ground arith

pub exec-guarded :
    (h g : ℕ) (text : String) (s : SampleServer)
    → opens text ≡ true
    → guarded h s ≡ true
    → guarded h (exec g text s).1 ≡ true
unfolding exec
exec-guarded h g text s e k = ground arith

pub exec-begun :
    (h : ℕ) (s : SampleServer)
    → (exec h "BEGIN" s).0.0 ≡ command_ok
    → guarded h (exec h "BEGIN" s).1 ≡ true
unfolding exec
exec-begun h s e = ground arith

pub run-done :
    (h : ℕ) (name : String) (s : SampleServer) → guarded h s ≡ true → (run h name s).1.done ≡ s.done
unfolding run
run-done h name s k = ground arith

pub run-guarded :
    (h : ℕ) (name : String) (s : SampleServer)
    → guarded h s ≡ true
    → guarded h (run h name s).1 ≡ true
unfolding run
run-guarded h name s k = ground arith

instance abbrev pub sample_libpq : Libpq
sample_libpq = record {
  Server = SampleServer;
  Result = SampleResult;
  is_ok = opened;
  connectdb = λ info s. (s.next, record s { next = s.next + 1 });
  exec = exec;
  prepare = λ h name text types s.
      if s.is_broken h then ((failure, none), s) else ((command_ok, none), s);
  exec_prepared = λ h name params s. run h name s;
  result_status = λ r. r.0;
  sqlstate = λ r. some "42601";
  ntuples = λ r. 1;
  getvalue = λ r row column. r.1;
  cmd_tuples = λ r. "1";
  connection_string = none;
  Committed = List String;
  committed = λ s. s.done;
  ends_none = λ h s. true;
  is_guarded = guarded;
  broken-is_guarded = opened-guarded;
  connectdb-is_ok = λ h info s e. e;
  exec-is_ok = exec-opened;
  connectdb-committed = λ info s. refl;
  connectdb-is_guarded = λ h info s k. k;
  exec-committed = exec-done;
  exec-is_guarded = exec-guarded;
  exec-begin = λ h s _ e. exec-begun h s e;
  exec_prepared-committed = λ h name params s k. run-done h name s k;
  exec_prepared-is_guarded = λ h name params s k. run-guarded h name s k;
}
