-- ===== src/SuitePark/Ps.antt =====
-- src/suite-park.ts: reading the process table by `ps`, in three attempts. What `ps` answers and how
-- its text is split into rows (`parsePsOutput`) are arguments.
pub mod Attempts
use Prim.Native.Char.{code}
use Prim.Native.String.{String}
use the_dudes_daemon.Base.{
  ℕ, zero, suc, ◌+◌, Bool, true, false, not, ◌&&◌, ◌||◌, Option, none, some, List, [], ◌∷◌, ◌++◌,
  if◌then◌else◌, ◌==◌, comparable_nat, comparable_string,
}
use the_dudes_daemon.SuitePark.Command.{is_space}
use the_dudes_daemon.SuitePark.Tree.{ProcRow}

-- `Error & { code?: string }`
pub record PsError : Type 0 where
  pub code : Option String

pub record PsSpawnResult : Type 0 where
  pub status : Option ℕ
  pub stdout : Option String
  pub error : Option PsError

pub data PsFailure : Type 0 where
  timeout maxbuffer erro stdout_vazio sem_processo : PsFailure
  status_failed : ℕ → PsFailure

abbrev pub ps_tentativas : ℕ
ps_tentativas = 3

or_blank : Option String → String
or_blank none = String.[]
or_blank (some s) = s

-- `!s.trim()`
is_blank : String → Bool
is_blank String.[] = true
is_blank (String.◌∷◌ c s) = is_space (code c) && is_blank s

is_code : String → Option PsError → Bool
is_code expected none = false
is_code expected (some e) = elim e.code [ none ↦ false | some c ↦ c == expected ]

is_error : Option PsError → Bool
is_error none = false
is_error (some e) = true

failed_status : Option ℕ → Bool
failed_status none = false
failed_status (some n) = not (n == 0)

describe_status : Option ℕ → Bool → PsFailure
describe_status none blank = if blank then stdout_vazio else sem_processo
describe_status (some n) blank =
    if not (n == 0) then status_failed n else if blank then stdout_vazio else sem_processo

pub describe_ps_failure : PsSpawnResult → PsFailure
unfolding is_code is_error describe_status or_blank is_blank
describe_ps_failure r =
    if is_code "ETIMEDOUT" r.error
    then timeout
    else if is_code "ERR_CHILD_PROCESS_STDIO_MAXBUFFER" r.error
    then maxbuffer
    else if is_error r.error
    then erro
    else describe_status r.status (is_blank (or_blank r.stdout))

exited_well : PsSpawnResult → Bool
unfolding is_error
exited_well r = not (is_error r.error) && elim r.status [ none ↦ false | some n ↦ n == 0 ]

-- `rows.length > 0 ? rows : null`
pub unless_empty : List ProcRow → Option (List ProcRow)
unless_empty [] = none
unless_empty (r ∷ rows) = some (r ∷ rows)

pub data Reading : Type 0 where
  read : List ProcRow → Reading
  unavailable : PsFailure → Reading

useful_or : Option (List ProcRow) → Reading → Reading
useful_or none later = later
useful_or (some rows) later = read rows

module _ (parse_ps_output : String → List ProcRow) where
  pub rows_from_ps_attempt : PsSpawnResult → Option (List ProcRow)
  unfolding exited_well unless_empty or_blank is_blank
  rows_from_ps_attempt r =
      if not (exited_well r) || is_blank (or_blank r.stdout)
      then none
      else unless_empty (parse_ps_output (or_blank r.stdout))

  useful_from : PsSpawnResult → List PsSpawnResult → Reading
  unfolding useful_or describe_ps_failure rows_from_ps_attempt
  useful_from last [] = unavailable (describe_ps_failure last)
  useful_from last (t ∷ tentativas) = useful_or (rows_from_ps_attempt t) (useful_from t tentativas)

  pub primeira_amostra_util : List PsSpawnResult → Reading
  unfolding useful_from
  primeira_amostra_util tentativas =
      useful_from (record { status = none; stdout = some ""; error = none }) tentativas

  attempts_from : ℕ → ℕ → (ℕ → PsSpawnResult) → List PsSpawnResult → Reading
  unfolding primeira_amostra_util
  attempts_from zero i answer tentativas = primeira_amostra_util tentativas
  attempts_from (suc n) i answer tentativas =
      useful_or (rows_from_ps_attempt (answer i))
        (attempts_from n (suc i) answer (tentativas ++ answer i ∷ []))

  -- `answer i` is what `ps` answers to the attempt `i`; the pauses between them are left out.
  pub run_ps_async : (ℕ → PsSpawnResult) → Reading
  unfolding attempts_from
  run_ps_async answer = attempts_from ps_tentativas 0 answer []

-- What `execFile` hands to its callback: `code` is a number for a status and a text for an error.
pub data ExecCode : Type 0 where
  status : ℕ → ExecCode
  text : String → ExecCode
  absent : ExecCode

pub record ExecError : Type 0 where
  pub code : ExecCode
  pub killed : Bool

result_of_error : ExecCode → Bool → String → PsSpawnResult
result_of_error (status n) killed stdout = record {
  status = some n;
  stdout = some stdout;
  error = none;
}
result_of_error (text c) killed stdout = record {
  status = none;
  stdout = some stdout;
  error = some (record { code = some c });
}
result_of_error absent killed stdout = record {
  status = none;
  stdout = some stdout;
  error = some (record { code = if killed then some "ETIMEDOUT" else none });
}

pub ps_result_from_exec_file : Option ExecError → String → PsSpawnResult
unfolding result_of_error
ps_result_from_exec_file none stdout = record {
  status = some 0;
  stdout = some stdout;
  error = none;
}
ps_result_from_exec_file (some e) stdout = result_of_error e.code e.killed stdout
