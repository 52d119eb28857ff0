-- ===== src/Lib.antt =====
-- libsbox runs untrusted programs in boxes and measures them. A client links src/libsbox.cpp, fills
-- tasks and sends them as JSON to the daemon. The daemon's workers (src/worker.cpp) each take a
-- request, give every task to a container (src/container.cpp) through shared memory
-- (src/task_data.h), start all of them together and send the results back. A container forks a
-- slave, which redirects its descriptors, drops its rights and executes the program.
--
-- The files, after the code that they model:
-- - Memory: fixed arrays, C strings and size_t, on which the containers below stand.
-- - PlainString, PlainVector, PlainStringVector: the classes of src/plain_string.h,
--   src/plain_vector.h and src/plain_string_vector.h, which live in the shared memory. Each
--   operation is a function of the same name (operator= is `assign`, operator+= `append`, operator==
--   `is_equal`, operator[] `index`, the overloads for a C string end in `_ptr`). MaxSize is the length
--   of the array. A write outside the array, or the use of a slot without an object, is an error
--   value, and so is the exception of `at`.
-- - SharedIdGetter: src/shared_id_getter.cpp. Ownership is about any sequence of calls by any number
--   of workers; a call holds the mutex from its first statement to its last, so that calls do not
--   interleave.
-- - Task: the client's classes of include/libsbox.h and src/libsbox.cpp, with a field for each
--   private member. Task/Json is their serialize and deserialize functions; RapidJSON
--   is the parameter `Rapidjson`.
-- - Crash: a `die` and undefined behaviour as the error values of a call.
-- - Pipes: Worker::get_pipe and Worker::close_pipes of src/worker.cpp.
-- - Container/TaskData: src/task_data.h. Container/SetTask: Container::set_task and put_results.
--   Container/WaitForSlave: wait_for_slave, kill_all and the measuring functions. Container/Slave:
--   open_files, dup2_fds and close_all_fds. Container/Environment: the search for PATH in slave().
-- - Transfer: the loops that read a stream in chunks, in Worker::serve, in run_together of
--   src/libsbox.cpp and in read_file of src/utils.cpp.
--   Utils: vformat, write_file and read_file of src/utils.cpp.
-- - Container/Start: the container's process from its start, with prepare and disable_ipcs.
--   Container/Root: prepare_root. Container/Serve: the loop of serve over the tasks, a task's round
--   between the two waits of the barrier, and cleanup_root.
-- - Container/Rights: setup_rlimits and setup_credentials. Container/Slave/Launch: slave() from the
--   start of the run to the search for PATH, which calls these, the descriptors' functions and the
--   cgroups'. Cgroup: src/cgroup_controller.cpp.
-- - Worker: Worker::prepare_containers and the end of Worker::collect_results of src/worker.cpp, in
--   which the getter of SharedIdGetter is the worker's. Worker/Tasks: write_tasks, the containers'
--   runs in any order, and the results. Worker/Process: Worker::process, which calls these.
--   Worker/Serve: Worker::serve with its loop over connections. Worker/Respond: Worker::process from
--   the text of a request to that of its response, as serve calls it.
-- - Exchange: run_together of src/libsbox.cpp, and parse_and_validate_json_request and the texts of
--   process in src/worker.cpp.
-- - Signals: src/signals.cpp. Config: src/config.cpp.
-- - Bind: src/bind.cpp, and Bind/Stack the loops over several binds; std::filesystem and the mount
--   calls are the parameter `System`. A mount is known by its target and the flags that the call
--   asked for; with MS_BIND the kernel takes none of these, and with MS_REC it brings mounts along,
--   of which the model only says whether one is on top at a target.
-- - Daemon: Daemon::prepare, run and _die of src/daemon.cpp, with the pid file, the socket and the
--   workers' processes.
-- - Tests: concrete runs.
--
-- Numbers are natural numbers or the integers of Base/Int; size_t and uid_t wrap at their width
-- where the code computes with them. Loops over arrays have the number of rounds left as an argument,
-- which is the number that the code runs; the waiting loop of wait_for_slave goes over the list of the
-- results of waitpid, and a list that ends is a call that still blocks. The kernel is a parameter or
-- an argument: the results of waitpid, kill and wait, what the cgroup files show, the descriptors that
-- pipe(2) returns, and the descriptor table, the process's rights, the signals' actions and the
-- cgroups' members, of which records named `IsLawful` state what the manual pages say.
-- The processes that run at the same time meet at barriers; between them each works on its own
-- memory, and the order in which containers end is an argument.
--
-- Not modelled: clone with its flags and the handlers of SIGCHLD, which only make a process or die;
-- the pthread objects and the mappings of shared memory, of which only SharedBarrier::wait is; the
-- schemas and logging; what the worker does to the descriptor table that a container shares with it
-- by CLONE_FILES; the deaths of read_file, stoll and set_standard_handler_restart in wait_for_slave;
-- a clock that shows less than at the start of a run; and libsboxd.cpp, which hands its arguments to a shell. They are calls of the
-- kernel or of libraries.
pub mod Base
pub mod Memory
pub mod PlainString
pub mod PlainVector
pub mod PlainStringVector
pub mod SharedIdGetter
pub mod Task
pub mod Crash
pub mod Pipes
pub mod Container
pub mod Worker
pub mod Bind
pub mod Transfer
pub mod Utils
pub mod Daemon
pub mod Signals
pub mod Cgroup
pub mod Config
pub mod Exchange
pub mod Tests
