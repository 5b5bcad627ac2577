-- ===== src/Mboxes/RoundRobin/Erasure.antt =====
-- What an erasure does to the order of turns.
use so5extra.Prelude.{List}
