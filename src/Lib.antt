-- ===== src/Lib.antt =====
-- A model of ec2-wrappers, the programs that give students limited access to a shared EC2
-- account. Paths are those of the repository, below ec2-wrappers/.
--
-- Prelude: the language. A statement that changes a state and may raise is an `Exec` (a function
-- from a state to a result and a state), with do blocks; what was written before a raise stays
-- written. Dicts and tables are association lists in insertion order (Python 2 promises no
-- order). Texts are sequences of characters with Python's methods on `str`.
--
-- Util: hadoop/cloud/util.py, with a reader of the words of bash to read `build_env_string`
-- back, which gives no reading where it meets a character that may be special to bash.
--
-- Audit: audit.py, on a kernel that is a parameter (system calls, the file system).
--
-- Ec2: the objects that boto answers with. boto itself is never modelled: its calls are
-- parameters.
--
-- Usage: record_usage.py, the usage database. A transaction keeps the tables from before it; a
-- statement that SQLite cannot parse raises. `julianday` is a parameter. Usage/Report has the
-- reports, with usage_report.py; costs there are exact, in hundred-thousandths of a dollar, and
-- the column `hours` of the views is a parameter. Usage/Cron is usage_cron.py.
--
-- Accounts: subaccounts.py, the users, their credentials and the launching of instances under a
-- spending limit; ec2_runner.py, the program that students call for it, with its options and the
-- JSON that it reads (Accounts/Runner); and ec2_active.py with kill_all_accounts.py
-- (Accounts/Scripts). `Services` is EC2 and IAM as boto calls them, and `Cloud` whatever they
-- keep. Costs are exact numbers in tenths of the unit of INSTANCE_COST, where the program has
-- floating point. A text that is missing is the empty text where boto is given it.
--
-- Storage: hadoop/cloud/storage.py and Ec2Storage of hadoop/cloud/providers/ec2.py, the volumes
-- of a cluster, and delete_storage of hadoop/cloud/service.py. The JSON file is what it parses
-- to.
--
-- Cluster: the class Ec2Cluster of hadoop/cloud/providers/ec2.py: security groups named for a
-- cluster and its roles, and launching, finding, awaiting and terminating instances. `Compute`
-- is EC2 as a cluster calls it. The name of a cluster is read literally where the program puts
-- it into a regular expression, which is right for names without special characters.
--
-- Course: CS61CEc2Cluster of cs61cec2.py, which launches through the program of the course: a
-- parameter there, which Course/Limited fills with the ec2_runner.py of Accounts/Runner.
--
-- Service: hadoop/cloud/service.py, with hadoop/cloud/cluster.py. The templates of instances and
-- the methods that all services share are in Service and Service/Templates, HadoopService in
-- Service/Hadoop and its children, ZooKeeperService in Service/Zookeeper. A service takes a
-- cluster with its storage as a record of operations, `Provider`; the machine it runs on is
-- `Host`; the state adds the files that it writes and the commands that it has a shell run. The
-- clock and the page of the jobtracker are sequences, `Polls`, one entry for each turn of a
-- loop.
--
-- Service/Ec2 fills `Provider` with Ec2Cluster and Ec2Storage on one account of EC2 (`Account`),
-- which may change while the program waits, and adds the snapshots. A wait that outlasts the fuel
-- is one that the user ends (KeyboardInterrupt). Service/Dummy fills it with
-- hadoop/cloud/providers/dummy.py.
--
-- Cli: hadoop/cloud/cli.py. `plan` leads from the words of the command line to the call of a
-- service, and `perform` makes it. What optparse and ConfigParser make of their input is a
-- parameter, `Console`. An option holds a text, a list of texts, a flag or a number (Util).
--
-- Usage and Accounts meet in the names of key pairs: Accounts makes them, and Usage bills by them
-- (Accounts/Names). Course and Accounts meet in the request that one program writes as JSON and
-- the other reads (Course/Limited). Service and Util meet in the environment of the instances,
-- which bash reads (Service/Hosts); Cli and Service in the templates (Cli/Keyed, Cli/Shifted);
-- and Cli, Service, Cluster and Storage in the commands on EC2 (Cli/Cloud, Service/Ec2). Names
-- that no Python scope defines raise NameError in the model as they do in the program. Loops are
-- recursion on lists; five loops are on fuel: that of `url_get`, for which one more than the
-- number of retries is enough; that of `wait_for_instances`, for which one more than the seconds
-- of its limit is enough; the two of `_wait_for_hadoop`, for which one more than the turn in
-- which the clock reaches the limit is enough; and that of `_wait_for_volume`, which has no
-- limit, and for which one more than the turn in which the volume is available is enough. `int`
-- of a text is modelled for digits without a sign or spaces.
--
-- Files are texts by their paths, in directories that are taken to be there. Not modelled:
-- ec2_util.py (which does not parse), the copied library boto-src, the shell and Perl programs,
-- the proxies, the text that is printed, what optparse does with the options, the regular
-- expression that reads the page of the jobtracker, and file locks.
pub mod Prelude
pub mod Util
pub mod Audit
pub mod Ec2
pub mod Usage
pub mod Accounts
pub mod Cli
pub mod Cluster
pub mod Course
pub mod Service
pub mod Storage
