-- ===== src/Lib.antt =====
-- Network Camp: verification of the programs of a network programming course in C. The programs are
-- independent of each other; each talks over sockets to a peer of its own.
--
-- The parts, and the files that model them:
-- * Trie (Trie.antt, Trie/): 숙제#4/Server Code/trie.c and trie.h. `insert_trie`, `find_match`
--   (Find_Match_Prefix_Node), `find_complete` (Find_Complete_InChild) and `complete_words`
--   (Get_Complete_Words). A node owns its children, so a trie is a tree; a write through a pointer is
--   a new tree. `none` stands for an access outside an array. Labels, Match and Query are about
--   queries, Shape, Contents and Insert about well-formed tries as finite maps.
-- * Search server (Search.antt, Search/): 숙제#4/Server Code/search_server.c. Data has
--   ReadData_MakeTrie, toLower and FindWordInArray, Sort has Sort_Array, Engine has SearchEngine,
--   Clients has the array clnt_socks of `main` and `handle_clnt`, Serving the loop of `handle_clnt` over
--   the requests and what it writes to the connection. SearchEngine asks the trie that
--   ReadData_MakeTrie built; the count stored in the trie is an index of `word_array` (Index).
-- * Accepting clients (Accept.antt, Accept/): the loop of `main` that accepts in search_server.c and
--   실습#3/multiple_access_serv.c, and the start of its threads, interleaved in any order.
-- * Stop-and-wait transfer (StopWait.antt, StopWait/): 숙제#2/Client Code(Sender)/stop_wait_clnt.c and
--   숙제#2/Server Code(Receiver)/stop_wait_serv.c. `sender_round` is a round of the sender's loop up to
--   Wait_For_ACK, `take_ack` the rest of Wait_For_ACK, `receive_packet` a round of the receiver's loop;
--   System puts them together over a network that loses, delays, reorders and repeats packets and acknowledgements; `AcksOnce`
--   says of a run that no acknowledgement is repeated. Opening has
--   the file info in front of the packets: Send_File_Info and the first `recvfrom` of the receiver.
-- * Peer-to-peer transfer (P2p.antt, P2p/): Final Project/p2p.c. Sender has Prepare_File_Via_Seg,
--   Send_Info and Send_Segment, Split and Share what they come to; Mesh has
--   Wait_Receiver_Connection, Receive_Info, conn_receiver and accpt_receiver; Stream has the reading of
--   a segment from a connection, Storage what accpt_snd_seg, flood_segment, accpt_rcv_seg and
--   Wait_All_Segment do with it, where a round of a thread is one step. Threads has the same threads
--   interleaved in any order, where one step is what stands between lock and unlock, with the signal
--   for `main`; Connecting has the threads that connect the receivers, and the wait for them. Session
--   has `main` of the sender, and that of a receiver with what its connections bring. Display
--   has the progress that is shown, Options GetOptArgs, with `getopt` and `atoi` as parameters.
-- * Progress (Progress.antt): the bar that p2p.c and simple_remote_shell_clnt.c print.
-- * Search client (SearchClient.antt, SearchClient/): 숙제#4/Client Code/search_clnt.c.
--   `press` is a round of send_search_word for a key, `receive_result` a round of recv_search_result,
--   which reads the answer of SearchEngine, and `print_result` the loop of Print_Result. Answers has
--   the loop over what the server has written, Session the client and the server together.
-- * Transfer (Transfer.antt, Transfer/): the sending and receiving loops of
--   숙제#1/Server Code/download_serv.c, 숙제#1/Client Code/download_clnt.c and of 숙제#3; Int has the
--   receiving loop of download_clnt.c, whose counter is an `int`.
-- * Download (Download.antt, Download/): the table of files, the server's loop over requests and the
--   client's loop over choices of the same two files; they send and receive with Transfer. Loop puts
--   both together for a whole connection.
-- * Shell (Shell.antt, Shell/): the server 숙제#3/Server Code/simple_remote_shell_serv.c, with the table
--   of clients (`connect`, `disconnect`, `get_struct`), CreateArrayFromDirectory (`create_array`),
--   MoveDir, ShowDir, SearchFile, and in Handler SendFile, GetFile and HandleClientRequest; Loop has
--   CreateDefaultDirectory and the loop of `main` over the events of epoll. What the file system
--   answers is a parameter.
-- * Shell client (ShellClient.antt, ShellClient/): 숙제#3/Client Code/simple_remote_shell_clnt.c.
--   Do_Client_Request reads a command, Upload_File and Download_File move a file; Session puts the
--   client and the handler of the server together, Rounds the loop of `main` of the client and the
--   server, which answers each of its requests before the next and serves others in between. What
--   `fopen` finds is a parameter.
-- * Lab (Lab.antt, Lab/): the exercises 실습#1/file_multi_serv.c, 실습#3/multiple_access_serv.c and
--   file_client.c of both: the loops that send and receive a picture, `handle_clnt`, and the
--   descriptors that `select` watches.
-- * Prelude holds what the parts share: lists over the native numbers, tests, options.
-- * Tests holds the theorems at concrete inputs.
--
-- Bounds and fuel: characters, counts and sequence numbers are natural numbers; the wrap-around of
-- `int` is modelled for `file_len` of download_clnt.c and `file_size` of stop_wait_clnt.c only, which
-- stand for the size of a file. BUF_SIZE, BUFSIZE, the segment size and the number of receivers are
-- arguments. `send_loop` has a round for each segment and one more; `send_file`, `receive_file`,
-- `upload_loop`, `send_picture` and `receive_picture` have one more round than there are bytes,
-- `fill_segment` one more than the segment has. The loops of GetOptArgs have their fuel as an
-- argument, and any number above that of the options is enough. The arrays `found_array` and
-- `temp_array` are lists; the source does not test that they and the 64 bytes of their words hold what
-- is copied to them: `copies_fit` is that test, and `serve` ends where it fails.
--
-- Reads of structures: `read` may return a part of a structure, which the source does not test. In
-- Stream and Session of P2p an argument says which of these reads are whole, and `none` stands for one
-- that is not; in Rounds of the shell client a turn says so. In Mesh, Download and the other parts of
-- the shell the structures arrive whole.
--
-- Locks: `main` of a receiver of p2p.c calls `pthread_cond_wait` without the lock that it names.
-- `WaitsApart` says of a run that no thread is about to take a lock at that moment.
--
-- Not modelled: sockets, files and terminals themselves; wake-ups of a waiting thread without a
-- signal; the throughputs, which are in floating point; and the release of memory.
pub mod Prelude
pub mod Trie
pub mod Search
pub mod SearchClient
pub mod StopWait
pub mod Progress
pub mod P2p
pub mod Transfer
pub mod Download
pub mod Lab
pub mod Accept
pub mod Shell
pub mod ShellClient
mod Tests
