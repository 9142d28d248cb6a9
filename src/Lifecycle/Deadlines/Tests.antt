-- ===== src/Lifecycle/Deadlines/Tests.antt =====
-- A deadline and the timeout job at the same moment.
use vekro_backend.Base.{◌≡◌, ◌↔◌, true, arith}
use vekro_backend.Model.Status.{TransactionStatus}
use vekro_backend.Lifecycle.Deadlines.{is_due, no_dispatch, deadlines_for}
use vekro_backend.Lifecycle.Deadlines.Mirror.{deadlines_mirror, HasPassed, deadline_of}
use vekro_backend.Lifecycle.Requests.Tests.{sale}

deadlines_mirror_example :
    (is_due 300000 no_dispatch (sale TransactionStatus.locked) ≡ true)
    ↔ HasPassed 300000 (deadline_of no_dispatch (deadlines_for (sale TransactionStatus.locked)))
deadlines_mirror_example =
    deadlines_mirror 300000 no_dispatch (sale TransactionStatus.locked) (omega arith)
