-- ===== src/Lib.antt =====
-- The memory virtualisation of CUDA in virtmem/, the handlers in remote/ that call it, the schedulers
-- in l2scheduler/ that share a GPU between processes, and the packets that interposer/ sends.
--
-- How the parts interact: the interposer packs the arguments of a call of the CUDA runtime
-- (interposer/libciutils.c), and a backend process unpacks them and runs a handler
-- (remote/remote_api_wrapper.c). With PAGER defined, which it is, the handlers do not call CUDA: they
-- keep a table of allocations with a swap space each (the memory map) and collect launches (the kernel
-- map), both in virtmem/cuda_vmem.c. A launch is preceded by paging in what it needs; the pager makes
-- other processes page out. The schedulers decide which process may use the GPU.
--
-- Files, with the source that each models:
-- - Prelude: names shared by all, Boolean tests, lists and integers over the native numbers, wrapping
--   integers, and the result of a loop on fuel.
-- - Vmem/Row: virtmem/cuda_vmem.h, rows of the memory map; the CUDA runtime is the record `Cuda`, with
--   what its documentation promises in `CudaLaws`.
-- - Vmem/Map: virtmem/cuda_vmem.c, `mem_map_init` (`mem_map_init`), `mem_map_creat` (`creat_row`),
--   `mem_map_delete` (`delete_row`), `mem_map_find_entry` (`mem_map_find_entry`), `mem_map_memcpy`
--   (`copy_row`). Inv holds the invariant of a row, Transfer the copies, Find the loops over the table.
-- - Vmem/Kernels: `kmap_init`, `kmap_add_config`, `kmap_add_arg` (with `push_arg` for its list) and
--   `kmap_add_kernel`. Args reads the linked list as a list, Calls puts the calls of a launch
--   together, Init is about the allocated block.
-- - Vmem/Paging: `gvirt_is_paging_required`, `gvirt_page_in`, `gvirt_page_out`,
--   `gvirt_cuda_launch_index`; Needs, In, Out and Launch are about one of them each.
-- - Vmem/Server: remote/remote_api_wrapper.c, `nvbackCudaMalloc_srv` (`malloc_srv`) and likewise
--   `free_srv`, `setup_argument_srv`, `configure_call_srv` and `memcpy_srv`; Laws composes them.
-- - Vmem/Sample: a device with room for one allocation, which satisfies `CudaLaws`.
-- - Sched/Data: l2scheduler/sched_commons.h, the table of processes; Sched/Sample is one to try.
-- - Sched/Fair: l2scheduler/fair_share_sched.c, `fs_listen_thread` (`fs_listen`),
--   `fs_register_process`, `fs_calculate_timeslice`, `fs_control_thread` (`fs_control`); Listener,
--   Slices and Control are about one of them each.
-- - Sched/Las: l2scheduler/las_scheduler.c, `las_register_process`, `las_listen_thread`
--   (`las_listen`), `las_control_thread` (`las_control`); Listener is about the table and Least
--   about the priorities.
-- - Sched/Cfs: l2scheduler/cfs_scheduler.c, `register_process`, `listen_thread` (`cfs_listen`),
--   `control_thread` (`cfs_control`, and `cfs_rounds` for several rounds); RoundRobin is about turns.
-- - Sched/Pager: l2scheduler/pager.c, `choose_victims_least_frequetly_used`
--   (`choose_victims_least_frequently_used`); Victims is about what it chooses.
-- - Interposer/Bytes, Interposer/Fields: interposer/libciutils.c, `l_packStr`, `l_unpackStr` and the
--   like for pointers to `uint3`, `dim3` and `int`, with their sizes.
-- - Interposer/Calls: `packRegFuncArgs`, `unpackRegFuncArgs`, `packRegVar`, `unpackRegVar`,
--   `l_getSize_regFuncArgs`, `l_getSize_regVar`; Steps packs and unpacks field by field.
-- - Interposer/FatBinary: `l_getSize__cudaFatPtxEntry` (`l_get_size_ptx`) and its kin,
--   `getFatRecPktSize`; Pack: `l_packPtx` (`l_pack_ptx`) and its kin, `packFatBinary`; Unpack:
--   `l_unpackPtx` and its kin, `unpackFatBinary`. The structures are those of CUDA's
--   `__cudaFatFormat.h`, a string being a parameter of them. Tables, Chains and Parts pack and unpack
--   any array and any list, Arrays, Symbols, Debug and Elf the ones there are, Layout and RoundTrip the
--   whole. Second: `getFatRecPktSize_4`, `packFatBinary_4`, `unpackFatBinary_4`.
-- - Interposer/Fatcubin: `g_fcia_idx`, `g_fcia_elidx`, `g_fcia_elem`, `g_fcia_host_var`.
-- - Interposer/Vars: interposer/libciutils.c, the table of registered variables, `g_vars_insert`,
--   `g_vars_remove`, `g_vars_find`, and its use in interposer/libci.c (`remember_var`, `forget_vars`);
--   Laws is about the search, Remember about what is added.
-- - Remote/Devices: remote/remote_api_wrapper.c, `get_gpu_index`, `get_next_device_RR`
--   (`get_next_device_rr`), `get_next_device` and `get_next_device_local_pref`; Balance is about
--   `get_next_device`.
-- - Remote/Registry: remote/remote_api_wrapper.c, `__nvback_cudaRegisterFatBinary2_srv`
--   (`register_fat_binary2_srv`), and likewise `register_function_srv`, `register_var_srv` and
--   `unregister_fat_binary_srv`; the search of `nvbackCudaLaunch_srv` (`launched_function`). Find is
--   about the search, Invariant about the array, Reach about all sequences of requests, Launch about the
--   way of a kernel from the client to its launch, and Remove states what GLib documents of
--   `g_array_remove_index_fast`.
-- - Remote/Rpc: remote/remote_packet.c, `pkt_execute`, `strm_full`, `strm_expects_response`,
--   `strm_flush_needed`; Session: `l_do_cuda_rpc` (`send_call`, `receive_answer`) and the loop of
--   backend/backend.c, `backend_thread` (`serve`, `serve_all`). The handlers are parameters.
-- - Remote/Client: remote/remote_api_wrapper.c, the functions `nvbackCuda..._rpc` and
--   `__nvback_cuda..._rpc` (`malloc_rpc` and so on) over a connection; Called says which packets
--   interposer/libci.c calls them with. `l_do_cuda_rpc` has its assertions about the buffers, and the
--   sizes become `int`s.
-- - Remote/Memory: `nvbackCudaMalloc_srv` (`malloc_handler`) and `nvbackCudaMemcpy_srv`
--   (`memcpy_handler`) with their packets and buffers, and the packets of interposer/libci.c,
--   `rcudaMalloc` and `rcudaMemcpy`; Laws puts client, connection, server and memory map together.
-- - Remote/Socket: remote/connection.c, `put` and `get`; `Socket` is the socket, with what POSIX
--   documents of it in `SocketLaws`. The other modules take the connection as the list of messages.
-- - Remote/Symbols: remote/remote_api_wrapper.c, `nvbackCudaMemcpyToSymbol_srv`
--   (`memcpy_to_symbol_srv`) and `nvbackCudaMemcpyFromSymbol_srv`, in the states of Registry/Reach
--   (Laws); Sent and Copies put `rcudaMemcpyToSymbol` and `rcudaMemcpyFromSymbol` in front of them.
-- - Remote/Entry: interposer/libci.c, `l_remoteInitMetThrReq` (`init_packet`); Calls: `rcudaMalloc`
--   (`rcuda_malloc`) and its kin, `r__cudaRegisterFunction` and `r__cudaRegisterVar`; Expected says what
--   they send and what they are to return, Laws puts them over a connection to the server.
-- - Remote/Nodes: interposer/libci.c, `__cudaRegisterFatBinary`, the tables of devices (`place_nodes`),
--   with Tables about what they say; Routes: `cudaSetDevice` (`cuda_set_device_routed`) and likewise the
--   other functions `cuda...` that go to the node of the current device; Calls puts them over connections
--   to the servers of the nodes.
-- - Global: Global_Sched/global_sched.c, `handle_req`, and what it calls, `nvbackCudaGetDevice_srv`
--   (`get_device_srv`) and `dec_thread_count_per_device`. Reach is about all orders in which connections
--   are made, served and closed, Entry about the way from an application to its device and back, and
--   Cluster about `cudaSetDevice` with the scheduler and the nodes.
-- - The modules named Tests apply the properties to small inputs.
--
-- State: an operation on a shared object takes the object and returns it. Tables of rows have any
-- length, although the backend passes one row. An access outside an array or
-- through NULL is `none` (or `fault` in a loop on fuel). Pipes, signals and timers are lists of events.
-- Loops over arrays recurse on the list. The walk over the arguments of a kernel runs on fuel, as many
-- rounds as the list has nodes, which is enough since a round leaves a node behind; the loop of the
-- launch is given any fuel. The pager's choice of victims is given as much fuel as memory is asked for,
-- enough for rows that are not empty, and the server's loop as many rounds as there are calls. The
-- loops of `put` and `get` are given as much fuel as there are bytes, enough since each round that goes on
-- has moved at least one. The endless loops of the threads are modelled by one round.
--
-- Widths: the sizes of packets and shares are bit patterns of 32-bit `int`s, times in ms wrap at 64
-- bits. A size that the code passes as an `int` is converted, and what is negative then is no size;
-- counters and indices of arrays below their bounds are numbers.
--
-- Not modelled: the set-up of sockets, the creation of processes, threads, pipes and semaphores, the
-- worker of the pager and the paging of a launch, which go on with pointers that are never set, the
-- weighted choices of a device, the schedulers and the feedback in `backend_thread`, and in the
-- interposer the functions that call the CUDA of the node itself, `rcudaConfigureCall`, the sending of
-- fat binaries, and the loops that send a registration to every node. The arithmetic of `float` in the
-- time slices, the allocators, sockets, CUDA's copies and its registration of a fat binary, what
-- unregistering frees behind its structure, and GLib's hash tables and its removal from an array are
-- parameters.

pub mod Prelude
pub mod Vmem
pub mod Sched
pub mod Interposer
pub mod Remote
pub mod Global
