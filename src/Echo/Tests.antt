-- ===== src/Echo/Tests.antt =====
-- Two lines and their echo, evaluated, and the theorems at them.
use cpe_464_proj.Base.{ℕ, ◌≡◌, refl, List, [], ◌∷◌, ◌++◌, some, pos}
use cpe_464_proj.Checksum.{in_cksum}
use cpe_464_proj.Pdu.{create_pdu}
use cpe_464_proj.SafeUtil.{exit_if_negative, safe_sendto, safe_recvfrom}
use cpe_464_proj.Rcopyold.{Exchange, read_from_stdin, talk_to_server}
use cpe_464_proj.ServerOld.{process_client}
use cpe_464_proj.Echo.{lines_come_back, Delivers}

-- The lines "hi" and ".", and one that is not read.
abbrev input : List ℕ
input = 104 ∷ 105 ∷ 10 ∷ 46 ∷ 10 ∷ 120 ∷ 10 ∷ []

abbrev answered : Exchange
answered = record { sends = pos 10; receives = pos 10; pdu = [] }

abbrev rounds : List Exchange
rounds = answered ∷ answered ∷ answered ∷ []

abbrev hi_pdu : List ℕ
hi_pdu = 0 ∷ 0 ∷ 0 ∷ 0 ∷ 149 ∷ 151 ∷ 1 ∷ 104 ∷ 105 ∷ 0 ∷ []

abbrev dot_pdu : List ℕ
dot_pdu = 0 ∷ 0 ∷ 0 ∷ 1 ∷ 254 ∷ 208 ∷ 1 ∷ 46 ∷ 0 ∷ []

client_sends : (talk_to_server in_cksum rounds input).sent ≡ some hi_pdu ∷ some dot_pdu ∷ []
unfolding talk_to_server in_cksum create_pdu read_from_stdin safe_sendto safe_recvfrom
    exit_if_negative
client_sends = refl

-- The server's array still has the last byte of the longer PDU behind the second one.
abbrev server_rounds : List Exchange
server_rounds =
    record { sends = pos 10; receives = pos 10; pdu = hi_pdu }
    ∷ record { sends = pos 9; receives = pos 9; pdu = dot_pdu ++ (0 ∷ []) }
    ∷ []

arrives : Delivers (talk_to_server in_cksum rounds input).sent server_rounds
arrives = rw client_sends (refl, (10, refl), ([], refl), (refl, (9, refl), (0 ∷ [], refl), tt))

lines_come_back_example :
    (process_client server_rounds).sent ≡ (talk_to_server in_cksum rounds input).sent
lines_come_back_example = lines_come_back in_cksum rounds server_rounds input arrives
