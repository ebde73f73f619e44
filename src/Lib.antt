-- ===== src/Lib.antt =====
-- The monitors of this repository that are written in C: the packet counter, the socket monitor and the
-- process monitor of Qt/ZMonitor, and the task statistics of Qt/FakeAtop.
--
-- Capture is Qt/ZMonitor/PacketCapture/packetcap.c. Its callback got_packet reads the headers of a captured
-- frame and adds the payload size to the counter of the flow. Capture/Table.antt models the counters
-- (lookupBandwidth, addBandwidth), Capture/Packet.antt the callback and the loop that calls it.
-- A packet is the list of its bytes; the result is none where a read is behind the last of them.
-- Capture/Packet/Frame.antt describes frames by the RFCs, apart from the code: all fields of the headers
-- but the lengths are arbitrary.
--
-- Sockets is Qt/ZMonitor/SocketMornitoring/zsocket.c, which says which process has a socket open.
-- Sockets/Inode.antt models the reading of link targets (extract_type_1_socket_inode and the second form),
-- Sockets/Cache.antt the hash table (prg_cache_add, prg_cache_get, and from Qt/demo_netstat/main.c
-- prg_cache_get_con and prg_cache_clear), Sockets/Load.antt prg_cache_load, which walks over /proc and
-- fills the table, and Sockets/Address.antt digitParser, addressParser and findBandwidth; findBandwidth
-- reads the counters of Capture/Table.antt, whose text zsocket.c repeats. What the system calls return is
-- an argument: the entries of /proc, their descriptors, link targets and command lines, and whether
-- malloc succeeds. Sockets/Load/Processes.antt describes a /proc apart from the code, by processes, their
-- commands and what their descriptors refer to.
--
-- Tasks is readProc of Qt/ZMonitor/ProcessMornitoring/zprocess.c: the list of the CPU times last seen.
--
-- Atop is part of Qt/FakeAtop: Atop/Tstat.antt the struct tstat of photoproc.h, Atop/Pdb.antt the
-- process database of procdbase.c. A node is its address, a hash chain and the RESIDUE list are lists
-- of addresses, and a heap maps addresses to the tstat that stands there. pdb_cleanresidue runs on
-- fuel, one more than the length of the RESIDUE list, of which each round takes one node.
--
-- Atop/Deviate.antt models subcount and calcdiff of deviate.c, and Atop/Deviate/Task.antt deviattask,
-- which compares each task of a sample with the database, counts it, and writes its deviation; a
-- count_t is its 64 bits, and a new node has the address that calloc gives. Atop/Various.antt models
-- hhmm2secs, val2elapstr, val2cpustr and val2valstr of various.c (the loop of val2valstr on fuel, the
-- value itself, which each round divides by ten), and Atop/Accumulate.antt the sums of tasks by user,
-- program and container of showgeneric.c, with qsort and regexec as arguments.
--
-- Atop/Sstat.antt is the struct sstat of photosyst.h, what is known of the whole system, and
-- Atop/System.antt models deviatsyst and totalsyst of deviate.c on it, each child one part of that
-- structure: a table of counters is the list of its members, an array the list of its entries, behind
-- which there are zeroes as photosyst leaves them; a read behind the bounds of an array of C is not
-- told from such a read. getifprop of ifprop.c is with the interfaces; the table that initifprop fills
-- is an argument, and so is HTTPSTATS. The exit where the privileges cannot be dropped is left out.
--
-- Atop/Photosyst.antt reads the text files of /proc as photosyst.c does, one child per file: Scan.antt
-- is the sscanf of the code, which reads a word and numbers, and Lines.antt the loop over the lines,
-- which fgets returns. The variables nam and cnts keep what they had where a line has fewer numbers.
-- The lines of diskstats, mountstats, user_beancounters and vz/vestat, which have other formats, are
-- what sscanf reads of them; regexec, abbrevname1 and the entries of /dev/mapper are arguments.
--
-- Atop/Photoproc.antt reads the tasks as photoproc.c does, one child per file of /proc/<pid>, and
-- Walk.antt the loops over the processes and their threads, which fill an array; the files of a
-- directory are a record, none where one cannot be opened. Atop/Netatop.antt is netatopif.c: the counters
-- of a task, the probe of the daemon, the file of exited tasks, and their hash; what the system calls
-- answer and uncompress of zlib are arguments. read_records runs on fuel, one more than the length of
-- the file, of which each round but the last takes a byte; a size is an unsigned char, and the result is
-- none where a record is written behind the end of readbuf. Atop/Acct.antt is acctproc.c: the accounting
-- file and the shadow files of atopacctd, as lists of whole records. Atop/Order.antt holds the
-- comparisons of showlinux.c by which tasks and devices are sorted, and Atop/Parseable.antt the labels
-- and lines of parseable.c, each line as the text that printf writes.
--
-- Base holds what the modules share: Boolean tests, lists, decimal text, and strtoul of the C library.
-- Numbers are natural numbers, with the wrap-around of the C types written out; where a file leaves a
-- bound as an assumption (the sums that Atop/Order.antt compares), its own comment says so. Tests holds runs of the
-- definitions and the theorems at concrete inputs.
--
-- Not modelled: printing and terminal screens, the opening of devices and files, the other text files
-- of the kernel (the frequencies, /proc/partitions), the accounting daemon, the raw log of FakeAtop, the C++
-- programs, and copies of the modelled text in other directories (Qt/Monitoring, Qt/ZSmartSO).
pub mod Base
pub mod Capture
pub mod Sockets
pub mod Tasks
pub mod Atop
pub mod Tests
