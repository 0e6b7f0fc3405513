-- ===== src/Lib.antt =====
-- MyCeph has two programs. The one under CRUSH_Research places the objects of a storage cluster on
-- devices with CRUSH, a hash that walks down a hierarchy of weighted buckets, and measures how fast
-- that is with and without threads. The one under gRPC_Ceph uploads a file to a Ceph cluster, by a
-- client and a server. This library models both.
--
-- The parts, from the bottom up, each with its file here:
--   Common           shared types, Boolean tests, words with their wrap-around, `int`s with a sign,
--                    and the lemmas on lists and bounds that all parts use
--   Hash             CRUSH_Research/crush_hash.c: the hashes of one to five 32-bit words
--   Ln               CRUSH_Research/include/rseudo_random_number.h and crush_ln_table.h: `crush_ln`,
--                    a fixed-point logarithm by table, and the draw that is made of it
--   CrushMap         CRUSH_Research/include/crush.h: `struct crush_map` and its buckets
--   Straw            CRUSH_Research/main.cpp: `bucket_straw2_choose`, with `choose_args`
--   Mapper           CRUSH_Research/main.cpp: `crush_choose_firstn`; its turns are in Mapper.Turn, its
--                    two do-while loops in Mapper.Loops, the arrays behind `out` and `out2` in
--                    Mapper.Memory
--   Build            CRUSH_Research/main.cpp: `init2`, `init` and the functions that construct buckets
--   Drivers          CRUSH_Research/main.cpp: `test`, `test2` and `do_work4`
--   Workers          CRUSH_Research/main.cpp: `do_work`, `do_work1` to `do_work3`, and `test_pthread`, which
--                    runs them as threads; Workers.Steps cuts a worker at its critical sections and runs
--                    the three of an object under any schedule
--   ThreadPool       CRUSH_Research/threadpool.c: the ring of tasks and the numbers of threads, by the
--                    operations between a lock and its unlock; ThreadPool.Events puts them in
--                    sequence, and ThreadPool.Grants has `threadPoolCreate` when the system refuses it
--                    something; ThreadPool.Crew runs the threads themselves, each at its place in
--                    `worker`, asleep until it is signalled where it waits for a task
--   Program          CRUSH_Research/main.cpp: `main`, which builds the map, prints it and runs the drivers,
--                    up to its call of `test_pthreadPool`
--   Upload           gRPC_Ceph: the messages; Upload.Rados is server/rados_client.h and rados_client.cpp,
--                    Upload.Server is server/file_server.cpp, Upload.Client is client/client.go
-- The modules below a part prove what they are named for; Tests runs the model.
--
-- How the code is modelled. A function of the program is a function here, under its own name. What it
-- may come to is an `Outcome`: a value, a `fault` (a read or write outside an array or through a null
-- pointer) or `out_of_fuel`. An unsigned word is a natural number,
-- and its wrap-around is written out; an item is an integer, a device `pos n` or the bucket `negsuc
-- n`, whose index in `map->buckets` is n. An `int` that is never negative in the code is a natural
-- number. A pointer to an array of results is the number of the array in a list of arrays, or null, so
-- that `out` and `out2` may be one array, as the drivers have it. The globals that a build counts up
-- are passed along.
--
-- Bounds and fuel. `crush_choose_firstn` calls itself once: two levels of calls are enough. The inner
-- loop of a replica makes one turn for each level that it goes down and each local retry, and the
-- outer one makes one for each try; a record `Fuel` bounds both. For the map of `init2`, 11 and 52
-- turns are enough. The loops of the threads of a pool have no fuel: a run is the list of their moves,
-- and `ThreadPool.Crew.Alert.work_left` bounds those of threads that do not wait, while nothing is
-- added. Under a schedule, `Workers.Reached.enough` bounds the steps of a worker by the tries, the
-- local retries and the height of the hierarchy, if the counters do not wrap.
--
-- What is not modelled: the clocks, and what is printed but for the buckets of the map; the wait of a
-- client for room in the ring, who may add again at any time instead; `threadPoolDestroy`,
-- `pthreadPool_crush_choose_firstn` and `test_pthreadPool`; the interleaving of a recursive call of a
-- worker, which counts as one step and is not made when devices are looked for;
-- CRUSH_Research/city_hash.c, a copy of another library that nothing calls; the declarations of
-- CRUSH_Research/include/crush.h that no code uses; the code that protoc generates. librados, grpc and
-- the reader of a file are parameters: `Librados` is a record of operations, `World` has what the
-- client meets call by call.
pub mod Common
pub mod Bits
pub mod Hash
pub mod Ln
pub mod CrushMap
pub mod Straw
pub mod Mapper
pub mod Build
pub mod Drivers
pub mod Workers
pub mod ThreadPool
pub mod Upload
pub mod Program
mod Tests
