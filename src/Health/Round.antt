-- ===== src/Health/Round.antt =====
-- One round of probes, handled by the controller.
use udplb.Controller.{Controller}
