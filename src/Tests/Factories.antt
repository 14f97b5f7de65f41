-- ===== src/Tests/Factories.antt =====
-- A factory that was constructed, whose heap gives the same address each time.
use ada_interfaces.Base.{true, some}
use ada_interfaces.Genode.Factory

abbrev pub ready_factory : {W : Type 0} → Factory.Calls W
ready_factory = record {
  constructed = λ w. (true, w);
  construct = λ env w. (tt, w);
  allocate = λ n w. (some 1, w);
  free = λ a w. (tt, w);
  warn = λ d w. (tt, w);
}
