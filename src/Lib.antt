-- ===== src/Lib.antt =====
-- Verification of the Go programs of this repository: the Raft peer of lab3, the video
-- recommendation services of lab2, the recommender of lab1, and the queue, the semaphore, the merged channels
-- and the parallel fetcher of lab0.
--
-- The Raft peer (lab3/raft/raft.go, lab3/raft/persister.go) is the subtree Raft. A peer is the record
-- Raft of Raft/State.antt; each method is a function from the peer to an Outcome: it returns, it
-- panics (an index out of range) or it blocks on a full channel. Raft/Persist.antt is the Persister
-- with persist and readPersist, Raft/Vote.antt RequestVote and sendRequestVote, Raft/Append.antt
-- AppendEntries with the goroutine that applies entries, Raft/Replicate.antt Start,
-- broadcastHeartbeat and sendAppendEntries, Raft/Ticker.antt Make, Kill and the sections of ticker,
-- Raft/Run.antt the steps of one peer in any interleaving, Raft/Cluster.antt those of a cluster of
-- peers with the calls of RequestVote between them. A section under the lock is one step; the
-- timers, the network and the scheduler are choices of the environment. int values that the code
-- keeps at 0 or above are natural numbers. In a cluster a request is delivered at
-- most once, and no peer restarts; the goroutine of a candidacy reads its arguments in a section of
-- its own. In Raft/Cluster.antt the messages of AppendEntries are arbitrary; Raft/Network.antt has
-- the cluster where they are copies of those that broadcastHeartbeat has made, each delivered late,
-- repeatedly, out of order or never, with arbitrary replies. That a candidacy reads its arguments and
-- sendAppendEntries copies its slice of the log in time are hypotheses on a run (AllPrompt,
-- AllTimely).
--
-- The services of lab2 are the subtrees Services and VideoRec. Services has
-- lab2/failure_injection/failure_injection.go, lab2/user_service/server_lib/server_lib.go and
-- lab2/video_service/server_lib/server_lib.go: what an injected failure does, and GetUser, GetVideo
-- and GetTrendingVideos on a database that is a function from ids; Rank.antt is
-- lab2/ranker/ranker.go. VideoRec has
-- lab2/video_rec_service/server_lib/server_lib.go: State.antt the server and its uint64 counters,
-- which wrap at 2^64, Connect.antt the pools of connections, Batches.antt the split of ids into calls
-- and the retry, Ranking.antt rankVideos and GetCachedVideos, Gather.antt the goroutines of one
-- request, TopVideos.antt GetTopVideos, Cache.antt UpdateCache, Refresh.antt
-- ContinuallyRefreshCache, Discovery.antt the search for the batch sizes. The recommender calls the
-- two services through replies that are parameters; in System.antt they are those of the modelled
-- services. The order in which goroutines append to a shared slice and send on a channel is a
-- parameter.
--
-- The subtree Lab1 has lab1/video_rec_service/server_lib/server_lib.go, the first version of the
-- recommender, as far as it differs: Lab1/Connect.antt a connection for each request with its retry
-- and the deadlines that a request meets, Lab1/VideoCalls.antt the goroutines that ask for videos
-- with 2 seconds for each call, Lab1/TopVideos.antt GetTopVideos and deadlineExc,
-- Lab1/Discovery.antt and Lab1/Refresh.antt the loops that connect before they go on as those of
-- lab2. The record of the server is that of lab2 with its pools unused; ConnectClient, UpdateCache,
-- rankVideos, GetCachedVideos, GetStats and the goroutines for users are the same text in both and
-- are modelled once, in VideoRec. Whether a deadline passes is a choice of the environment.
--
-- The subtree Lab0 has lab0/queue.go, lab0/semaphore.go, lab0/merge_channels.go and
-- lab0/parallel_fetcher.go: Lab0/Queue.antt is the linked list in a heap of nodes,
-- Lab0/Semaphore.antt Post and Wait as steps that any number of calls take in any order,
-- Lab0/Merge.antt, Lab0/Cancel.antt and Lab0/Fetches.antt the goroutines of MergeChannels,
-- MergeChannelsOrCancel and MergeFetches, Lab0/Fetcher.antt the calls of ParallelFetcher.Fetch.
--
-- Fuel: only the loops of the two Discovery files have it, one unit for an attempt; any fuel above
-- the number of the first attempt without an injected failure, and of the first call that connects,
-- is enough. Every other loop is structural.
--
-- Parameters, with what the code relies on as hypotheses: labgob (it reads back what it wrote),
-- fmt.Sscanf (it reads back what Sprintf wrote by the same format), grpc.NewClient, math/rand, the
-- hash of a rank, the quantile of the t-digest library, semaphore.Weighted (it has as many units as
-- it was made with), the fetchers.
--
-- Not modelled: the services, the ranker and the failure injection of lab1 (earlier copies of those
-- of lab2), lab3/labrpc and lab3/labgob (copies of the network and the encoding of the MIT 6.824 labs), the commands,
-- logging and mock clients, the generated protocol code, det_bcrypt (a copy of
-- golang.org/x/crypto/bcrypt), lab-dsml (protocol files), the copies under bws26, tests and their
-- configuration. The sleeps of ContinuallyRefreshCache are results of its rounds;
-- other sleeps and the passing of time are left out.
pub mod Common
pub mod Lab0
pub mod Lab1
pub mod Raft
pub mod Services
pub mod VideoRec
