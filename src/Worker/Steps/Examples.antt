-- ===== src/Worker/Steps/Examples.antt =====
-- An example of the invariant of the workers' steps (go/internal/worker).
use rushes.Base.{All, refl}
use rushes.Float.Fixed.{fixed}
use rushes.Jobs.Sample.{some_jobs, claimed}
use rushes.Jobs.{running}
use rushes.Worker.Claim.{heartbeat}
use rushes.Worker.Steps.{stays, and_then, beats}
use rushes.Worker.Steps.Coherent.{IsCoherent}
use rushes.Worker.Steps.Reached.{steps-IsCoherent}

some_jobs-IsCoherent : All IsCoherent some_jobs
some_jobs-IsCoherent = ((refl, refl, refl), ((tt, tt, tt), ((refl, refl, refl), (tt, tt))))

steps-IsCoherent_example :
    All IsCoherent (heartbeat (claimed running) "2026-01-01T00:00:15Z" some_jobs).0
steps-IsCoherent_example =
    steps-IsCoherent
      (and_then (beats (claimed running) "2026-01-01T00:00:15Z" {rows = some_jobs}) stays)
      some_jobs-IsCoherent
