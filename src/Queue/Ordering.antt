-- ===== src/Queue/Ordering.antt =====
-- The order that Less puts on items.
use distributed_grpc_task_ma.Prelude.{◌≡◌, true, false, arith}
use distributed_grpc_task_ma.Heap.Order.{IsOrder}
use distributed_grpc_task_ma.Queue.{Rank, precedes}

asym : (a b : Rank) → precedes a b ≡ true → precedes b a ≡ false
unfolding precedes
asym a b h = ground arith

trans : (a b c : Rank) → precedes b a ≡ false → precedes c b ≡ false → precedes c a ≡ false
unfolding precedes
trans a b c h k = ground arith

-- Less orders items strictly and with incomparability transitive, whatever their priorities and
-- creation times are.
pub precedes-IsOrder : IsOrder precedes
precedes-IsOrder = record { asym = asym; trans = trans }
