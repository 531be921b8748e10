-- ===== src/Proto/Request/Ids.antt =====
-- The numbers of the request ids.
use playit_agent.Common.{ℕ, ◌<◌, ◌≡◌, ◌↔◌, some, arith}
use playit_agent.Proto.Request.{ControlRequestId, id_num, from_num}

-- A number is read as an id exactly if it is the number of an id below `end`: the cast is applied to
-- no other number.
pub from_num_iff :
    (num : ℕ) (id : ControlRequestId)
    → (from_num num ≡ some id) ↔ ((id_num id ≡ num) × (num < id_num ControlRequestId.end))
unfolding from_num
from_num_iff num ControlRequestId.ping_v1 = ground arith
from_num_iff num _ = ground arith
