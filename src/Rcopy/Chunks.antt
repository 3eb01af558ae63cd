-- ===== src/Rcopy/Chunks.antt =====
-- What rcopy.c sends: the data PDUs, each with the bytes of one `read`, and the control PDUs.
pub mod Slots
pub mod States
pub mod Reads
pub mod Acks
pub mod Steps
use cpe_464_proj.Base.{
  ℕ, zero, suc, ◌+◌, ◌%◌, ◌≤◌, ◌<◌, ◌≡◌, refl, sym, ap, ap₂, ◌∙◌, List, [], ◌∷◌, Option, none, some,
  Bool, true, false, not, arith, length, get_or, take, take_all, drop, All, All-mono, In, ◌==◌,
  u32_mod,
}
use cpe_464_proj.Pdu.{create_pdu, flag_data, max_data_size}
use cpe_464_proj.Window.{Window, WindowPacket}
use cpe_464_proj.Client.{
  RcopyState, done, ReadResult, read_error, read_bytes, read_within, RcopyInfo,
}

abbrev pub bytes_of : ReadResult → List ℕ
bytes_of read_error = []
bytes_of (read_bytes bytes) = bytes

-- At most 1400 bytes, as a client that has started asks for.
abbrev pub Fits : ReadResult → Type 0
Fits r = length (bytes_of r) ≤ max_data_size

-- What the next `read`s of at most `count` bytes give.
abbrev pub reads_within : ℕ → List ReadResult → List ReadResult
reads_within count [] = []
reads_within count (r ∷ rs) = read_within count r ∷ reads_within count rs

-- What the next `read`s give.
abbrev pub readable : RcopyInfo → List ReadResult
readable info = reads_within info.buffer_size info.reads

-- A client reads in every state but DONE, until the end of the file.
abbrev pub is_live : RcopyState → RcopyInfo → Bool
is_live done info = false
is_live _ info = not info.eof_reached

pub is_live-ext :
    (s : RcopyState) (info next : RcopyInfo)
    → next.eof_reached ≡ info.eof_reached
    → is_live s next ≡ is_live s info
is_live-ext done info next e = refl
is_live-ext _ info next e = ap not e

module _ (in_cksum : List ℕ → ℕ → ℕ) (input : List ReadResult) where
  -- The bytes of the `i`-th `read`.
  abbrev pub chunk : ℕ → List ℕ
  chunk i = bytes_of (get_or input i (read_bytes []))

  -- The data PDU of one of the first `n` reads.
  pub record IsData (n : ℕ) (x : Option (List ℕ)) : Type 0 where
    pub index : ℕ
    pub before : index < n
    pub made : x ≡ create_pdu in_cksum index flag_data (chunk index)

  -- A PDU of the log: a control PDU, or a data PDU.
  pub data IsSent (n : ℕ) (x : Option (List ℕ)) : Type 0 where
    control :
        (seq flag : ℕ) (payload : List ℕ)
        → (flag == flag_data) ≡ false
        → x ≡ create_pdu in_cksum seq flag payload
        → IsSent n x
    packet : (i : ℕ) → i < n → x ≡ create_pdu in_cksum i flag_data (chunk i) → IsSent n x

  -- An active slot has the data PDU of its number.
  pub record HoldsChunk (n : ℕ) (p : WindowPacket) : Type 0 where
    pub early : p.active ≡ true → p.seq_num < n
    pub content :
        p.active ≡ true
        → some (take p.pdu_len p.pdu) ≡ create_pdu in_cksum p.seq_num flag_data (chunk p.seq_num)

  -- The client has sent `n` chunks, none of them empty, and they all are in the log. While it is live, it reads the next one; at
  -- the end of the file the next `read` gave no bytes.
  pub record Tracks (n : ℕ) (live : Bool) (info : RcopyInfo) : Type 0 where
    pub count : info.window.current ≡ n
    pub rest : live ≡ true → readable info ≡ drop n input
    pub enough : n ≤ length input
    pub slots : All (HoldsChunk n) info.window.packets
    pub log : All (IsSent n) info.sent
    pub logged : (i : ℕ) → i < n → In (create_pdu in_cksum i flag_data (chunk i)) info.sent
    pub full : (i : ℕ) → i < n → 0 < length (chunk i)
    pub ended : info.eof_reached ≡ true → get_or input n (read_bytes []) ≡ read_bytes []

  pub IsSent-suc : (n : ℕ) (x : Option (List ℕ)) → IsSent n x → IsSent (suc n) x
  IsSent-suc n x (control seq flag payload f e) = control seq flag payload f e
  IsSent-suc n x (packet i h e) = packet i (omega arith) e

  pub HoldsChunk-suc : (n : ℕ) (p : WindowPacket) → HoldsChunk n p → HoldsChunk (suc n) p
  HoldsChunk-suc n p h = record { early = λ a. omega (arith, h.early a); content = h.content }

  -- In DONE nothing is read any more.
  pub Tracks-enter :
      (s : RcopyState) (n : ℕ) (info : RcopyInfo)
      → Tracks n (not info.eof_reached) info
      → Tracks n (is_live s info) info
  Tracks-enter done n info t = record {
    count = t.count;
    rest = λ e. absurd (cc);
    enough = t.enough;
    slots = t.slots;
    log = t.log;
    logged = t.logged;
    full = t.full;
    ended = t.ended;
  }
  Tracks-enter RcopyState.send_filename n info t = t
  Tracks-enter _ n info t = t
