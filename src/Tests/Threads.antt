-- ===== src/Tests/Threads.antt =====
-- Two threads that log at the same time.
use distiller_fs.Prelude.{codes, List, [], ◌∷◌, map, arith}
use distiller_fs.Ops.{flag, op_open, op_read}
use distiller_fs.Khash.Instance.{text_table, text_table-KhashLaws}
use distiller_fs.Logger.{State}
use distiller_fs.Logger.Threads.{Call, Phase, idle, Steps, stay}
use distiller_fs.Logger.Threads.Safety.{Safe}
use distiller_fs.Logger.Threads.Schedules.{AllDone, Finished, Steps-Finished}
use distiller_fs.Logger.Threads.Progress.{GoesOn, steps, Safe-CanStep, go_on, Ready-Safe}
use distiller_fs.Tests.Disk.{disk}
use distiller_fs.Tests.Start.{start, start-Ready}

abbrev calls : List (List Call)
calls =
    ((codes "/src/a.c", flag op_open) ∷ (codes "/src/out/a.o", flag op_open) ∷ [])
    ∷ ((codes "/src/a.c", flag op_read) ∷ [])
    ∷ []

abbrev threads : List Phase
threads = map idle calls

threads-Safe : Safe text_table text_table-KhashLaws [] start threads
threads-Safe =
    Ready-Safe text_table text_table-KhashLaws [] start calls (start-Ready 3 (omega arith))

abbrev ended :
    (t : State text_table.Table disk.World) × (qs : List Phase) × Steps text_table start threads t
      qs
    × AllDone qs
ended =
    go_on text_table text_table-KhashLaws [] 15 start threads start threads stay threads-Safe
      (omega arith)

Steps-Finished_example : Finished text_table text_table-KhashLaws [] start threads ended.0
Steps-Finished_example =
    Steps-Finished text_table text_table-KhashLaws [] start ended.0 threads ended.1 threads-Safe
      ended.2 ended.3

Safe-CanStep_example :
    GoesOn text_table text_table-KhashLaws [] start threads (steps ended.2) ended.0 ended.1
Safe-CanStep_example =
    Safe-CanStep text_table text_table-KhashLaws [] start threads ended.0 ended.1 threads-Safe
      ended.2
