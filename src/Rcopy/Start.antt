-- ===== src/Rcopy/Start.antt =====
-- The client as `initRcopyInfo` starts it.
use cpe_464_proj.Base.{◌≤◌, ◌<◌, ◌≡◌, [], false, arith, length, pos}
use cpe_464_proj.Pdu.{max_data_size}
use cpe_464_proj.Window.{window_set_up}
use cpe_464_proj.Client.{RcopyInfo}
use cpe_464_proj.Setup.{Args, Answers, started, init_rcopy_info}

-- What the tests of the arguments establish.
pub record IsStarted (a : Args) (answers : Answers) (info : RcopyInfo) : Type 0 where
  pub window_new : info.window ≡ window_set_up info.window.window_size
  pub window_size_given : a.window_size ≡ pos info.window.window_size
  pub window_some : 0 < info.window.window_size
  pub buffer_size_given : a.buffer_size ≡ pos info.buffer_size
  pub buffer_some : 0 < info.buffer_size
  pub buffer_fits : info.buffer_size ≤ max_data_size
  pub name : info.to_file ≡ a.to_file
  pub name_fits : length info.to_file ≤ 100
  pub control_zero : info.control_seq_num ≡ 0
  pub filename_zero : info.filename_tries ≡ 0
  pub timeouts_zero : info.timeout_count ≡ 0
  pub eof_zero : info.eof_tries ≡ 0
  pub not_eof : info.eof_reached ≡ false
  pub reads_given : info.reads ≡ answers.reads
  pub arrivals_given : info.arrivals ≡ answers.arrivals
  pub nothing_sent : info.sent ≡ []

-- A client that starts has a new window of the positive size given, a buffer size from 1 to 1400, a
-- file name of at most 100 characters, its counters at zero, nothing read or received and nothing
-- sent.
pub init_rcopy_info-IsStarted :
    (a : Args) (answers : Answers) (info : RcopyInfo)
    → init_rcopy_info a answers ≡ started info
    → IsStarted a answers info
unfolding init_rcopy_info window_set_up
init_rcopy_info-IsStarted a answers info e = ground arith
