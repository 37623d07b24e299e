-- ===== src/Tests/Texts.antt =====
-- A line of the command line.
use very_simple_file_system.Run.{pure, ◌>>◌}
use very_simple_file_system.FileSystem.Descriptor.{seek}
use very_simple_file_system.FileSystem.Command.{run_line}
use very_simple_file_system.FileSystem.Command.Spoken.{
  seek_line, line_of, meaning, run_line-line_of,
}
use very_simple_file_system.Table.{show_int}
use very_simple_file_system.Tests.Systems.{start}
use very_simple_file_system.Base.{◌^◌, ◌-◌, ◌≡◌, [], arith, codes}

-- A line with a number that has a sign.
run_line-line_of_example :
    run_line (λ w. pure tt) [] 5 (codes "seek 3 -17") start
    ≡ (do seek 3 (2 ^ 32 - 17); pure tt) start
unfolding line_of meaning show_int
run_line-line_of_example =
    run_line-line_of (λ w. pure tt) [] 5 (seek_line 3 (2 ^ 32 - 17)) start
      (omega arith, omega arith)
