-- ===== src/Lib.antt =====
-- driver-hostmot2 runs LinuxCNC's hostmot2 driver outside LinuxCNC: the process hm2-host loads the
-- driver and a transport, gives them the HAL and RTAPI functions they call, and exchanges their pins
-- once a cycle with a control, the core, through a region of shared memory.
--
-- The parts, and the file that models each:
--   Shim.Arena, Shim.Cell          hal_malloc and the typed cells of shim/hal_shim.c. A block is its
--                                  offset in the arena, memory a function from offsets to words.
--   Shim.State, Shim.Components    hm2_shim_init and hm2_shim_fini, and the components.
--   Shim.Pins                      the declaring calls of shim/hal_shim.c (new_pin, new_param,
--                                  hal_export_functf) over the table of signals.
--   Shim.Params                    shim/param_table.c, the configured and the declared parameters.
--   Shim.Messages, Shim.Argv       the messages and the splitting of strings in shim/rtapi_shim.c.
--   Shim.ModuleParams              hm2_shim_set_module_param of shim/rtapi_shim.c.
--   Shim.Driver                    any sequence of the calls that a driver makes of the shim.
--   Host.Startup                   main of host/main.c from the configuration file to its cycle, with
--                                  the modules of the driver and every way that a start can end.
--   Host.Setsserial                the arguments of main, and its mode --setsserial.
--   Host.Objects                   the shared objects by name: hm2_region_create, hm2_region_rename
--                                  and hm2_region_destroy of host/region.c.
--   Host.Region                    host/region.c and the structures of
--                                  host/include/cnc_outboard.h. Its child Channel has this process
--                                  and the core as one step relation, in the order that the header
--                                  file states for both.
--   Host.Config                    host/config.c, from the lines that fgets returns to the checks.
--   Host.FixedPins                 fix_pins of host/main.c.
--   Host.Bind                      bind_signals, bind_params and declare_signals of host/main.c.
--   Host.Cycle                     the loop of main in host/main.c: seeding, the board's health, the
--                                  stage that publishes, take_answer, a whole period and the loop of them. The
--                                  driver's read and write, the core's moves and the clock are
--                                  arguments of a period.
--   Host.WorstCycle                declare_worst_cycle of host/main.c, over the times of its periods.
--   Host.Watch                     host/sserial_watch.c.
--   Host.LogRing                   hm2_log and log_writer of host/main.c: the line, and the ring of
--                                  lines as a step relation on both threads' moves, with the queue
--                                  it stands for.
--   Base, Double                   shared helpers; the C type double as a parameter with the one law
--                                  that a stored double is read back.
--   Concrete and the Tests modules concrete inputs.
--
-- How they interact: Shim.Pins takes names and cells from Shim.Arena and values from Shim.Params;
-- Host.FixedPins and Host.Bind read the table that Shim.Pins leaves, through the invariant of
-- Shim.Pins.Invariant; Host.Bind fills the table of descriptors of Host.Region; Host.Cycle takes the
-- signals that Host.Bind numbered, and moves values between the cells and the halves of Host.Region.
-- Host.Startup composes them in the order of main, over the calls of Shim.Driver.
--
-- Numbers are natural; a sum of size_t, uint64_t or uint32_t has its wrap written out. No definition
-- runs on fuel: loops are recursions over the table, the lines or the turns that are given. A wait
-- that the turns given do not end has no result.
-- Whether calloc, realloc or strdup succeeds is a Boolean argument; what vsnprintf makes of a name
-- is an argument, and so is whether a system call succeeds; strtoul, strtol and strtod are the record Libc.
--
-- Not modelled: the text of messages, system calls (threads,
-- priorities, dlopen, clocks; of shared objects only their names), memory orderings, and
-- the copies of LinuxCNC's files under third_party/linuxcnc and shim/include/linuxcnc.
pub mod Base
pub mod Double
pub mod Concrete
pub mod Shim
pub mod Host
