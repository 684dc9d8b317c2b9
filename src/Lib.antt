-- ===== src/Lib.antt =====
-- A verification library for ldms-test: the Python library behind the tests of LDMS and OVIS.
--
-- The program. TADA.py reports the assertions of a test to a server, `tadad`, by datagrams, and keeps
-- tests and assertions in a database. LDMS_Test.py reads the spec of a virtual cluster, expands its
-- templates and variables, writes the configuration of the `ldmsd` daemons from it, starts the
-- daemons in containers through a runtime plugin, and reads and compares what `ldms_ls` and the
-- daemons answer. A test script makes a `Test` of TADA.py, starts a cluster, and asserts what it
-- reads. The plugins in runtime/ make the containers with Docker or Singularity. The tools in
-- scalability/ control and watch the daemons of a large test on real hosts.
--
-- Which file models what:
--   Base, Base/*         Python's `dict`, `str`, exceptions and `while` loops, and lemmas on them
--   Tada, Tada/*         TADA.py, class Test: `init`, `start`, `add_assertion`, `assert_test`,
--                        `finish`, `exit_code`; whole runs of a script
--   CTest, CTest/*       LDMS_Test.py, `create_suite_from_C_test_results`, which replays the
--                        results of a C program as such a test
--   Value, Value/*       LDMS_Test.py, the objects of a spec and `deep_copy`
--   Spec, Spec/*         LDMS_Test.py, class Spec: Spec/Expand is `_expand*`, Spec/Subst `_subst*`
--   LdmsdConfig, ../*    LDMS_Test.py, `get_ldmsd_config`, over an expanded Spec
--   LdmsLs, LdmsLs/*     LDMS_Test.py, `parse_ldms_ls`
--   ReadMsg, ReadMsg/*   LDMS_Test.py, `read_msg`
--   Compare, Compare/*   LDMS_Test.py, `obj_xeq`, `XCmp`, `LdmsAddr`, and class StreamData
--   Runtime, Runtime/*   LDMS_Test.py, what class LDMSDContainer asks of runtime/*.py
--   Munged, Munged/*     LDMS_Test.py, class Munged
--   Container, ../*      LDMS_Test.py, class LDMSDContainer: `start_munged`, `start_sshd`,
--                        `_start_slurmx`, `start_daemons`, and in Container/Services `start_etcd`,
--                        `start_slurm` and the `kill_*` methods
--   Ldmsd, Ldmsd/*       LDMS_Test.py, class LDMSDContainer: `ldmsd_spec`, `get_ldmsd_cmd`,
--                        `start_ldmsd`; `env_dict`, `cond_timedwait`
--   Cluster, Cluster/*   LDMS_Test.py, class LDMSDCluster: /etc/hosts, slurm.conf, `squeue`
--   Sql, Sql/*           TADA.py, the statements that class SQLModel sends, and what it relies on of a
--                        connection; Sql/Memory is a connection that meets this
--   Objects, Objects/*   TADA.py, class SQLModel: `get`, `find`, `create`, `commit`, `__cmp__` ...
--   TadaDb, TadaDb/*     TADA.py, TADATestModel, TADAAssertionModel, TADA_DB and the connect functions
--   Scale, Scale/*       scalability/ldmsdutils.py: Scale the names and `getExpectedDir`,
--                        Scale/Commands `getConfig` and `getCmdline`, Scale/Process class Proc,
--                        Scale/MonStat class MonStat, Scale/Control `get_daemons` and `_ctrl`,
--                        Scale/Requests `req`, Scale/Status `set_state_summary`, Scale/Times
--                        `min_ts` and `max_ts`; Scale/Ctl is scalability/ldmsd_ctl.py and
--                        Scale/Cluster is scalability/cluster.py
--   Singularity, ../*    runtime/singularity.py: Singularity is class HexRanges, Singularity/Addresses
--                        class IPAddrDb, Singularity/Containers commands and hosts of SContainer and
--                        SCluster
--   Docker, Docker/*     runtime/docker.py: Docker/Shares, Docker/Params and Docker/Creation are
--                        `__create` of class DockerCluster, Docker/Kwargs `spec_to_kwargs`,
--                        Docker/Subnets `attr_grep`, the choice of subnets and class Network,
--                        Docker/Networks clients and `containers`, Docker/Containers class Container
-- Files called Examples hold runs and instances of the theorems.
--
-- How state is modelled. A method that may raise returns its result beside the object that it
-- leaves, so that what was written before an exception stays. A method of a container maps the
-- requests made so far to its outcome and the requests made when it ends; the container is an
-- arbitrary function of those requests. A method of a database object maps the state of the database
-- to its outcome and the state that it leaves. What the scalability tools do to a machine is a list
-- of actions or of commands. The file of addresses of runtime/singularity.py keeps whether it is
-- locked; Docker is an arbitrary function of the calls made so far; what `attr_grep` has found is
-- passed on from call to call. A text is the list of its code points.
--
-- Bounds. The loops of class Spec have no bound in the source and take fuel; they answer `running`
-- where it ends; `get` and `create` of SQLModel, which call each other, take fuel in the same way.
-- Theorems on acyclic templates and variables give a fuel that is enough, and where
-- the source does not end the theorems say that no fuel is. All other functions are total.
--
-- Arguments that stand for other code: the digest, clock and number conversion of Python, the match
-- of a regular expression in `parse_ldms_ls` (`_LS_RE`, whose alternatives are tried in order) and in
-- the version of ldmsd, `json.loads`, `str` of
-- containers, the runtime plugin, the database (a connection with the laws of SQL for the statements
-- that are sent), the files of a machine and its shell, Docker, and the package `ipaddress`. The loops
-- that wait take the number of rounds for which the clock stays below the timeout.
--
-- Not modelled: `config_ldmsd`, the loops of LDMSDCluster over its containers, process handling by ssh
-- (`Proc` of LDMS_Test.py), command line and configuration, the start and the terminals of
-- the containers of runtime/singularity.py, the calls of runtime/docker.py that only pass on to Docker, the waiting
-- methods and the LDMS connection of scalability/ldmsdutils.py and the scripts over it, python/*.py
-- and the test scripts. The last two are calls of other programs and libraries for the most part.
-- `start_daemons` takes the start of ldmsd and etcd as arguments, given as modelled in its theorem.
-- A signal to a process that has ended in between, for which `os.kill` raises, is not modelled.
pub mod Base
pub mod Tada
pub mod Value
pub mod Singularity
pub mod Docker
pub mod Spec
pub mod LdmsLs
pub mod ReadMsg
pub mod LdmsdConfig
pub mod Compare
pub mod Runtime
pub mod Munged
pub mod Container
pub mod CTest
pub mod Cluster
pub mod Ldmsd
pub mod Sql
pub mod Objects
pub mod TadaDb
pub mod Scale
