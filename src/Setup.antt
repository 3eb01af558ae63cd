-- ===== src/Setup.antt =====
-- `checkArgs`, `checkErrorRate` and `initRcopyInfo` of rcopy.c: the start of the client. The results
-- of `atoi` are `int`s, the error rate is given by whether it is at least 0 and below 1, `opened` says
-- whether `open` finds the input file, `connected` whether `setupUdpClientToServer` returns, and
-- `allocated` whether `windowSetUp` finds memory. `setupPollSet` and `addToPollSet` do not run out of it.
use cpe_464_proj.Base.{
  ℕ, List, [], Bool, false, not, ◌||◌, length, ltb, ◌==◌, if◌then◌else◌, ℤ, pos, negsuc,
}
use cpe_464_proj.Pdu.{Datagram, max_data_size}
use cpe_464_proj.Window.{window_set_up}
use cpe_464_proj.Client.{RcopyInfo, ReadResult}

-- The command line, its numbers converted.
pub record Args : Type 0 where
  pub argc : ℕ
  pub from_file : List ℕ
  pub to_file : List ℕ
  pub window_size : ℤ
  pub buffer_size : ℤ
  pub error_rate_valid : Bool

-- Why the client exits before it starts.
pub data SetupError : Type 0 where
  incorrect_args name_too_long bad_error_rate bad_window_size bad_buffer_size no_input no_server
        no_window :
      SetupError

pub data Setup : Type 0 where
  started : RcopyInfo → Setup
  exited : SetupError → Setup

-- The answers of the system to the session.
pub record Answers : Type 0 where
  pub opened : Bool
  pub connected : Bool
  pub allocated : Bool
  pub polls : List Bool
  pub arrivals : List Datagram
  pub reads : List ReadResult

-- The tests of `checkArgs`: the program goes on as `next`, or exits with a message.
unfoldable pub check_args : Args → Setup → Setup
check_args a next =
    if a.argc == 8
    then (if ltb 100 (length a.from_file) || ltb 100 (length a.to_file)
        then exited name_too_long
        else next)
    else exited incorrect_args

unfoldable pub check_error_rate : Args → Setup → Setup
check_error_rate a next = if a.error_rate_valid then next else exited bad_error_rate

unfoldable pub open_input : Args → Answers → ℕ → ℕ → Setup
open_input a answers window_size buffer_size =
    if not answers.opened
    then exited no_input
    else if not answers.connected
    then exited no_server
    else if not answers.allocated
    then exited no_window
    else started (record {
      window = window_set_up window_size;
      buffer_size = buffer_size;
      timeout_count = 0;
      filename_tries = 0;
      eof_tries = 0;
      to_file = a.to_file;
      control_seq_num = 0;
      eof_reached = false;
      polls = answers.polls;
      arrivals = answers.arrivals;
      reads = answers.reads;
      sent = [];
    })

-- `windowSize <= 0` and `bufferSize < 1 || bufferSize > 1400`.
unfoldable pub check_sizes : Args → Answers → ℤ → ℤ → Setup
unfolding open_input
check_sizes a answers (negsuc w) b = exited bad_window_size
check_sizes a answers (pos w) (negsuc b) =
    if w == 0 then exited bad_window_size else exited bad_buffer_size
check_sizes a answers (pos w) (pos b) =
    if w == 0
    then exited bad_window_size
    else (if ltb b 1 || ltb max_data_size b
        then exited bad_buffer_size
        else open_input a answers w b)

unfoldable pub init_rcopy_info : Args → Answers → Setup
unfolding check_args check_error_rate check_sizes
init_rcopy_info a answers =
    check_args a (check_error_rate a (check_sizes a answers a.window_size a.buffer_size))
