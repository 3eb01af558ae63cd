-- ===== src/Rcopy/Chunks/Reads.antt =====
-- SEND_DATA of rcopy.c: the `read`s and the chunks.
use cpe_464_proj.Base.{
  ℕ, ◌<◌, ◌≡◌, refl, sym, ap, subst, ◌∙◌, List, [], ◌∷◌, true, false, not, arith, length, take,
  drop-cons, get_or-drop_nil, All, All-get_or, u32_mod,
}
use cpe_464_proj.Window.{is_window_open}
use cpe_464_proj.Client.{
  window_closed, done, ReadResult, read_error, read_bytes, RcopyInfo, read_input,
}
use cpe_464_proj.Rcopy.{send_chunk, send_read, send_data_state}
use cpe_464_proj.Rcopy.Chunks.{Fits, reads_within}
use cpe_464_proj.Rcopy.Chunks.States.{
  Sends, Continues, Sends-enter, drain_or_finish-Continues, HasRead, send_chunk-Continues,
  if-Continues,
}

module _ (in_cksum : List ℕ → ℕ → ℕ) (input : List ReadResult) (small : length input < u32_mod)
    (fits : All Fits input) where
  -- A read error ends the transfer.
  read_error-Continues :
      (n : ℕ) (info : RcopyInfo) (rest : List ReadResult)
      → Sends in_cksum input n info
      → info.eof_reached ≡ false
      → Continues in_cksum input n (done, record info { reads = rest })
  read_error-Continues n info rest t live = (
    n,
    omega arith,
    record {
      count = t.count;
      rest = λ e. absurd (cc);
      enough = t.enough;
      slots = t.slots;
      log = t.log;
      logged = t.logged;
      full = t.full;
      ended = λ e. cc (live, e);
    },
  )

  read_none-Continues :
      (n : ℕ) (info : RcopyInfo)
      → Sends in_cksum input n info
      → info.eof_reached ≡ false
      → info.reads ≡ []
      → Continues in_cksum input n (send_chunk in_cksum [] info)
  unfolding send_chunk
  read_none-Continues n info t live e =
      drain_or_finish-Continues in_cksum input n (record info { eof_reached = true })
        (record {
          count = t.count;
          rest = λ e. absurd (cc);
          enough = t.enough;
          slots = t.slots;
          log = t.log;
          logged = t.logged;
          full = t.full;
          ended = λ _.
              get_or-drop_nil n input (read_bytes [])
                (sym (t.rest (ap not live)) ∙ ap (reads_within info.buffer_size) e);
        })

  read_some :
      (n : ℕ) (info : RcopyInfo) (bytes : List ℕ) (rest : List ReadResult)
      → Sends in_cksum input n info
      → info.eof_reached ≡ false
      → is_window_open info.window ≡ true
      → info.reads ≡ read_bytes bytes ∷ rest
      → HasRead in_cksum input n (take info.buffer_size bytes) (record info { reads = rest })
  read_some n info bytes rest t live room e =
      let (here, behind, within) =
        drop-cons n input (read_bytes (take info.buffer_size bytes)) (read_bytes [])
          (reads_within info.buffer_size rest)
          (sym (t.rest (ap not live)) ∙ ap (reads_within info.buffer_size) e) in
      record {
        fits = subst Fits here (All-get_or Fits input n (read_bytes []) fits (omega arith));
        room = room;
        count = t.count;
        within = within;
        here = here;
        live = live;
        full = t.full;
        slots = t.slots;
        log = t.log;
        logged = t.logged;
        rest = λ _. sym behind;
      }

  send_read-Continues :
      (n : ℕ) (info : RcopyInfo)
      → Sends in_cksum input n info
      → info.eof_reached ≡ false
      → is_window_open info.window ≡ true
      → Continues in_cksum input n (send_read in_cksum (read_input info))
  unfolding send_read read_input
  send_read-Continues n info t live room = go info.reads refl
    where
      go :
          (reads : List ReadResult)
          → info.reads ≡ reads
          → Continues in_cksum input n (send_read in_cksum (read_input info))
      go [] e = rw (e, read_input) (read_none-Continues n info t live e)
      go (read_error ∷ rest) e = rw (e, read_input) (read_error-Continues n info rest t live)
      go (read_bytes bytes ∷ rest) e =
          rw (e, read_input)
            (send_chunk-Continues in_cksum input n (take info.buffer_size bytes)
              (record info { reads = rest }) small (read_some n info bytes rest t live room e))

  pub send_data_state-Continues :
      (n : ℕ) (info : RcopyInfo)
      → Sends in_cksum input n info
      → Continues in_cksum input n (send_data_state in_cksum info)
  unfolding send_data_state
  send_data_state-Continues n info t =
      if-Continues in_cksum input n info.eof_reached _ _
        (λ eof. drain_or_finish-Continues in_cksum input n info t)
        λ live.
          if-Continues in_cksum input n (is_window_open info.window) _ _
            (send_read-Continues n info t live)
            λ full. Sends-enter in_cksum input n window_closed info t
