-- ===== src/Cases.antt =====
-- The table `TEST_CASES` of tools/sos_runner.py, in its order.
pub mod Kernel
mod Events
mod Clocks
mod Processes
mod Giving
mod Memory
mod Deaths
mod Pipes
mod PipeWaits
mod PipeCalls
mod PipeHandles
mod Services
pub mod Formats
pub mod Names
pub mod Passable
mod Donation
mod Platform
use sawos.Prelude.{List, ◌++◌}
use sawos.Text.{Text}
use sawos.Case.{Case}
use Kernel.{kernel_cases}
use Events.{events_cases}
use Clocks.{clocks_cases}
use Processes.{processes_cases}
use Giving.{giving_cases}
use Memory.{memory_cases}
use Deaths.{deaths_cases}
use Pipes.{pipes_cases}
use PipeWaits.{pipe_waits_cases}
use PipeCalls.{pipe_calls_cases}
use PipeHandles.{pipe_handles_cases}
use Services.{services_cases}
use Donation.{donation_cases}
use Platform.{platform_cases}

abbrev pub test_cases : Text → List Case
test_cases root =
    kernel_cases root
    ++ (events_cases root
        ++ (clocks_cases root
            ++ (processes_cases root
                ++ (giving_cases root
                    ++ (memory_cases root
                        ++ (deaths_cases root
                            ++ (pipes_cases root
                                ++ (pipe_waits_cases root
                                    ++ (pipe_calls_cases root
                                        ++ (pipe_handles_cases root
                                            ++ (services_cases root
                                                ++ (donation_cases root
                                                    ++ (platform_cases root)))))))))))))
