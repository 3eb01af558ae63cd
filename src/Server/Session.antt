-- ===== src/Server/Session.antt =====
-- A session of server.c: what it writes.
use cpe_464_proj.Base.{ℕ, ◌≤◌, ◌<◌, ◌≡◌, List, Bool, All, u32_mod}
use cpe_464_proj.Pdu.{Datagram}
use cpe_464_proj.Buffer.Delivery.{IsGenuine, stream}
use cpe_464_proj.Server.{process_client}
use cpe_464_proj.Server.Serving.{process_client-Serves}

module _ (chunk : ℕ → List ℕ) (limit : ℕ) (in_cksum : List ℕ → ℕ → ℕ)
    (small : limit < u32_mod) where
  -- Whatever FILENAME PDU starts a session, whether or not the output file opens, and whatever
  -- comes in: if each datagram that passes for a data packet carries the chunk of its number, for a
  -- file of fewer than 2^32 chunks, the server has written the first n chunks in order, each once,
  -- for some n up to the number of chunks.
  pub process_client_in_order :
      (opened : Bool) (first : Datagram) (polls : List Bool) (arrivals : List Datagram)
      → All (IsGenuine chunk limit in_cksum) arrivals
      → (n : ℕ) × (n ≤ limit)
        × ((process_client in_cksum opened first polls arrivals).receiver.written ≡ stream chunk n)
  process_client_in_order opened first polls arrivals g =
      let (n, le, h) =
        process_client-Serves chunk limit in_cksum small opened first polls arrivals g in
      (n, h.delivered.within, h.delivered.file)
