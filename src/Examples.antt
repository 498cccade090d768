-- ===== src/Examples.antt =====
-- Concrete machines, the runs of the repository's own tests, and theorems at concrete inputs.
mod Machine
mod Programs
mod Witnesses
mod WitnessesIo
mod WitnessesApu
mod WitnessesRun
mod WitnessesTrace
mod WitnessesApp
mod WitnessesReach
mod WitnessesModes
