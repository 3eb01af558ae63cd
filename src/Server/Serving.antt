-- ===== src/Server/Serving.antt =====
-- `receiveFile` and `processClient` of server.c on the chunks of a file, with the PDUs that they send.
use cpe_464_proj.Base.{
  ℕ, zero, suc, ◌≤◌, ◌<◌, ◌≡◌, refl, List, [], ◌∷◌, Option, Bool, true, false, ◌&&◌, arith, All,
  u32_mod, ◌==◌, Bool-cases, Option-cases, inl, inr,
}
use cpe_464_proj.Pdu.{
  Datagram, get_flag, flag_data, flag_rr, flag_eof, flag_eof_ack, flag_final_ack,
  flag_filename_response,
}
use cpe_464_proj.Buffer.{Receiver, buffer_init}
use cpe_464_proj.Buffer.Delivery.{Delivered-ext, IsGenuine, buffer_init-Delivered}
use cpe_464_proj.Buffer.Replies.{IsReply, not_rr, Served, buffer_process_pdu-Served}
use cpe_464_proj.Server.{
  ServerInfo, Request, parse_filename_packet, recvfrom, send_server_control_packet,
  send_filename_response, send_eof_ack, is_intact, await_final_ack, take_data, receive_file,
  serve_file, process_client, cleared, named,
}

pub receiver-recvfrom : (info : ServerInfo) → (recvfrom info).1.receiver ≡ info.receiver
unfolding recvfrom
receiver-recvfrom info = ground arith

module _ (chunk : ℕ → List ℕ) (limit : ℕ) (in_cksum : List ℕ → ℕ → ℕ)
    (small : limit < u32_mod) where
  -- A session in which the first `n` chunks have been written, and whose datagrams are genuine.
  record Receives (n : ℕ) (info : ServerInfo) : Type 0 where
    served : Served chunk limit in_cksum n info.receiver
    genuine : All (IsGenuine chunk limit in_cksum) info.arrivals

  recvfrom-Receives : (n : ℕ) (info : ServerInfo) → Receives n info → Receives n (recvfrom info).1
  unfolding recvfrom
  recvfrom-Receives n info r = go info.arrivals refl r.genuine
    where
      go :
          (ds : List Datagram)
          → info.arrivals ≡ ds
          → All (IsGenuine chunk limit in_cksum) ds
          → Receives n (recvfrom info).1
      go [] e g = rw (e, recvfrom) r
      go (d ∷ ds) e g = rw (e, recvfrom) (record { served = r.served; genuine = g.1 })

  -- What `recvfromErr` gives, if it passes the tests of `receiveFile`, is genuine.
  recvfrom-IsGenuine :
      (n : ℕ) (info : ServerInfo)
      → Receives n info
      → is_intact in_cksum (recvfrom info).0 ≡ true
      → IsGenuine chunk limit in_cksum (recvfrom info).0
  unfolding recvfrom
  recvfrom-IsGenuine n info r = go info.arrivals refl r.genuine
    where
      go :
          (ds : List Datagram)
          → info.arrivals ≡ ds
          → All (IsGenuine chunk limit in_cksum) ds
          → is_intact in_cksum (recvfrom info).0 ≡ true
          → IsGenuine chunk limit in_cksum (recvfrom info).0
      go [] e g = rw (e, recvfrom) (λ h. absurd (cc))
      go (d ∷ ds) e g = rw (e, recvfrom) (λ h. g.0)

  -- A control PDU of the server is no RR.
  send_server_control_packet-Served :
      (n : ℕ) (info : ServerInfo) (flag : ℕ) (payload : List ℕ)
      → (flag == flag_rr) ≡ false
      → Served chunk limit in_cksum n info.receiver
      → Served chunk limit in_cksum n
          (send_server_control_packet in_cksum info flag payload).receiver
  unfolding send_server_control_packet
  send_server_control_packet-Served n info flag payload f h = record {
    delivered = Delivered-ext chunk limit n info.receiver _ refl refl refl h.delivered;
    replies = (not_rr info.control_seq_num flag payload f refl, h.replies);
  }

  await_final_ack-Served :
      (tries n : ℕ) (polls : List Bool) (info : ServerInfo)
      → Served chunk limit in_cksum n info.receiver
      → Served chunk limit in_cksum n (await_final_ack in_cksum tries polls info).receiver
  unfolding await_final_ack
  await_final_ack-Served zero n polls info h = h
  await_final_ack-Served (suc tries) n [] info h =
      await_final_ack-Served tries n [] (send_eof_ack in_cksum info)
        (send_server_control_packet-Served n info flag_eof_ack [] refl h)
  await_final_ack-Served (suc tries) n (false ∷ rest) info h =
      await_final_ack-Served tries n rest (send_eof_ack in_cksum info)
        (send_server_control_packet-Served n info flag_eof_ack [] refl h)
  await_final_ack-Served (suc tries) n (true ∷ rest) info h =
      let (d, info') = recvfrom info in
      let h' : Served chunk limit in_cksum n info'.receiver = rw (receiver-recvfrom info) h in
      elim (Bool-cases (is_intact in_cksum d && get_flag d.pdu == flag_final_ack)) [
        | inl final ↦ rw final h'
        | inr more ↦ rw more (
            await_final_ack-Served tries n rest (send_eof_ack in_cksum info')
              (send_server_control_packet-Served n info' flag_eof_ack [] refl h'))
      ]

  -- What a session may do: write some more of the chunks.
  abbrev Serves : ℕ → Receiver → Type 0
  Serves n r = (m : ℕ) × (n ≤ m) × Served chunk limit in_cksum m r

  -- The session goes on writing chunks in order.
  receive_file-Serves :
      (n : ℕ) (polls : List Bool) (info : ServerInfo)
      → Receives n info
      → Serves n (receive_file in_cksum polls info).receiver
  unfolding receive_file
  receive_file-Serves n [] info r = (n, omega arith, r.served)
  receive_file-Serves n (false ∷ rest) info r = (n, omega arith, r.served)
  receive_file-Serves n (true ∷ rest) info r =
      let (d, info') = recvfrom info in
      let r' = recvfrom-Receives n info r in
      let skip = receive_file-Serves n rest info' r' in
      elim (Bool-cases (is_intact in_cksum d)) [
        | inr bad ↦ rw bad skip
        | inl good ↦ elim (Bool-cases (get_flag d.pdu == flag_data)) [
          | inl packet ↦
              let (m, le, h) =
                buffer_process_pdu-Served chunk limit in_cksum n info'.receiver d small r'.served
                  (recvfrom-IsGenuine n info r good) in
              let (k, le', h') =
                receive_file-Serves m rest (take_data in_cksum info' d)
                  (record { served = h; genuine = r'.genuine }) in
              rw (good, packet) (k, omega arith, h')
          | inr control ↦ elim (Bool-cases (get_flag d.pdu == flag_eof)) [
            | inr unknown ↦ rw (good, control, unknown) skip
            | inl eof ↦
                rw (good, control, eof)
                  (
                    n,
                    omega arith,
                    await_final_ack-Served 10 n rest (send_eof_ack in_cksum info')
                        (send_server_control_packet-Served n info' flag_eof_ack [] refl r'.served),
                  )
          ]
        ]
      ]

  -- A receiver that `bufferInit` has just set up, with what was sent before.
  fresh-Served :
      (size : ℕ) (sent : List (Option (List ℕ)))
      → All (IsReply in_cksum 0) sent
      → let r : Receiver = buffer_init size in
        Served chunk limit in_cksum 0 (record r { sent = sent })
  fresh-Served size sent log = record {
    delivered =
        Delivered-ext chunk limit 0 (buffer_init size) _ refl refl refl
          (buffer_init-Delivered chunk limit size);
    replies = log;
  }

  -- The response to the file name.
  send_filename_response-Served :
      (info : ServerInfo) (status : ℕ)
      → Served chunk limit in_cksum 0 info.receiver
      → Served chunk limit in_cksum 0 (send_filename_response in_cksum info status).receiver
  unfolding send_filename_response
  send_filename_response-Served info status h =
      send_server_control_packet-Served 0 info flag_filename_response (status ∷ []) refl h

  cleared-Served :
      (q : Request) (polls : List Bool) (arrivals : List Datagram)
      → Served chunk limit in_cksum 0 (named q (cleared polls arrivals)).receiver
  unfolding buffer_init
  cleared-Served q polls arrivals = fresh-Served 0 [] tt

  serve_file-Serves :
      (info : ServerInfo)
      → Served chunk limit in_cksum 0 info.receiver
      → All (IsGenuine chunk limit in_cksum) info.arrivals
      → Serves 0 (serve_file in_cksum info).receiver
  unfolding serve_file send_filename_response send_server_control_packet
  serve_file-Serves info h g = receive_file-Serves 0 info.polls _ (record {
    served = fresh-Served info.window_size _ (send_filename_response-Served info 0 h).replies;
    genuine = g;
  })

  pub process_client-Serves :
      (opened : Bool) (first : Datagram) (polls : List Bool) (arrivals : List Datagram)
      → All (IsGenuine chunk limit in_cksum) arrivals
      → Serves 0 (process_client in_cksum opened first polls arrivals).receiver
  unfolding process_client buffer_init
  process_client-Serves opened first polls arrivals g =
      elim (Option-cases (parse_filename_packet first)) [
        | inl bad ↦ rw (bad, process_client) (0, omega arith, fresh-Served 0 [] tt)
        | inr (q, e) ↦ elim (Bool-cases opened) [
          | inr refused ↦
              rw (e, process_client, refused)
                (
                  0,
                  omega arith,
                  send_filename_response-Served (named q (cleared polls arrivals)) 1
                      (cleared-Served q polls arrivals),
                )
          | inl ready ↦
              rw (e, process_client, ready)
                (serve_file-Serves (named q (cleared polls arrivals))
                  (cleared-Served q polls arrivals) g)
        ]
      ]
