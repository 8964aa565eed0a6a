-- ===== src/Tests/Containers.antt =====
-- A container at a concrete input: its boot and one batch.
use lingo_async.Prelude.{some, [], ◌∷◌}
use lingo_async.World.{World}
use lingo_async.Boot.{verify_internal_token_on_boot}
use lingo_async.Worker.Entry.{invoke}
use lingo_async.Container.{imported}
use lingo_async.Tests.Fixtures.{up, host, message, settings}
use lingo_async.Tests.Logs.{broken_disk, empty_logs}

abbrev after_boot : World
after_boot = (verify_internal_token_on_boot up (imported settings)).1

abbrev after_batch : World
after_batch =
    (invoke up host broken_disk (some (message "m1" "ad" ∷ []))
      (record { world = after_boot; log = empty_logs })).1.world
